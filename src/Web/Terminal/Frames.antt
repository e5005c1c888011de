-- ===== src/Web/Terminal/Frames.antt =====
-- What each session of web/editor/terminal.js sends and shows.
use nixbox.Prelude.{
  All, All-get_elem?, All-update_at, All-update_at_elem, Bool, Bool-cases, List, Option-cases, Text,
  [], arith, false, get_elem?, if◌then◌else◌, inl, inr, refl, some, suc, true, ℕ, ◌++◌, ◌+◌, ◌∷◌,
  ◌≡◌, ◌≢◌,
}
use nixbox.Web.Terminal.{
  Ready, connecting, open_, closing, closed, Frame, resize, keys, Chunk, output, notice, Session,
  Panel, Event, click, opened, message, socket_closed, socket_failed, typed, resized, send, write,
  dispose, on_click, finish, on_open, step, run, finished, shut, at, start, is_open, close_socket,
}
use nixbox.Web.Terminal.Sessions.{run-keeps}

abbrev pub notices : List Chunk → ℕ
notices [] = 0
notices (output t ∷ cs) = notices cs
notices (notice t ∷ cs) = suc (notices cs)

-- Nothing was sent, or a resize was sent first.
abbrev pub SizeFirst : List Frame → Type 0
SizeFirst [] = Unit
SizeFirst (resize r c ∷ fs) = Unit
SizeFirst (keys t ∷ fs) = ⊥

abbrev pub Handshake : Ready → List Frame → Type 0
Handshake connecting fs = fs ≡ []
Handshake open_ fs = SizeFirst fs × (fs ≢ [])
Handshake closing fs = SizeFirst fs
Handshake closed fs = SizeFirst fs

pub record IsSound (s : Session) : Type 0 where
  pub quiet : notices s.screen ≡ (if s.done then 1 else 0)
  pub shaken : Handshake s.ready s.frames

notices-append : (xs ys : List Chunk) → notices (xs ++ ys) ≡ notices xs + notices ys
notices-append [] ys = omega arith
notices-append (output t ∷ xs) ys = notices-append xs ys
notices-append (notice t ∷ xs) ys = omega (arith, notices-append xs ys)

Handshake-SizeFirst : (r : Ready) (fs : List Frame) → Handshake r fs → SizeFirst fs
Handshake-SizeFirst connecting fs h = rw h tt
Handshake-SizeFirst open_ fs h = h.0
Handshake-SizeFirst closing fs h = h
Handshake-SizeFirst closed fs h = h

open-append :
    (fs : List Frame) (f : Frame)
    → SizeFirst fs × (fs ≢ [])
    → SizeFirst (fs ++ f ∷ []) × ((fs ++ f ∷ []) ≢ [])
open-append [] f (h, ne) = absurd (ne refl)
open-append (resize r c ∷ fs) f (h, ne) = (tt, λ e. cc)
open-append (keys t ∷ fs) f (h, ne) = absurd h

append-Handshake :
    (r : Ready) (fs : List Frame) (f : Frame)
    → is_open r ≡ true
    → Handshake r fs
    → Handshake r (fs ++ f ∷ [])
append-Handshake connecting fs f o h = cc
append-Handshake open_ fs f o h = open-append fs f h
append-Handshake closing fs f o h = cc
append-Handshake closed fs f o h = cc

send-IsSound : (f : Frame) (s : Session) → IsSound s → IsSound (send f s)
unfolding send
send-IsSound f s v = elim (Bool-cases (is_open s.ready)) [
  | inl o ↦
      rw o (record { quiet = v.quiet; shaken = append-Handshake s.ready s.frames f o v.shaken })
  | inr o ↦ rw o v
]

on_open-IsSound : (rows cols : ℕ) (s : Session) → IsSound s → IsSound (on_open rows cols s)
unfolding on_open
on_open-IsSound rows cols s v = go s.ready refl
  where
    go : (r : Ready) → s.ready ≡ r → IsSound (on_open rows cols s)
    go connecting e =
        let none_yet : s.frames ≡ [] = (rw e at v.shaken) in
        rw (e, on_open) (record { quiet = v.quiet; shaken = rw none_yet (tt, λ q. cc) })
    go open_ e = rw (e, on_open) v
    go closing e = rw (e, on_open) v
    go closed e = rw (e, on_open) v

output-IsSound : (t : Text) (s : Session) → IsSound s → IsSound (write (output t) s)
unfolding write
output-IsSound t s v = record {
  quiet = omega (arith, notices-append s.screen (output t ∷ []), v.quiet);
  shaken = v.shaken;
}

finished-IsSound : (t : Text) (s : Session) → s.done ≡ false → IsSound s → IsSound (finished t s)
unfolding write
finished-IsSound t s d v =
    let none_yet : notices s.screen ≡ 0 = (rw d at v.quiet) in
    record { quiet = omega (arith, notices-append s.screen (notice t ∷ [])); shaken = v.shaken }

dispose-IsSound : (s : Session) → IsSound s → IsSound (dispose s)
unfolding dispose
dispose-IsSound s v = record { quiet = v.quiet; shaken = go s.ready v.shaken }
  where
    go : (r : Ready) → Handshake r s.frames → Handshake (close_socket r) s.frames
    go connecting h = rw h tt
    go open_ h = h.0
    go closing h = h
    go closed h = h

shut-IsSound : (s : Session) → IsSound s → IsSound (shut s)
shut-IsSound s v = record {
  quiet = v.quiet;
  shaken = Handshake-SizeFirst s.ready s.frames v.shaken;
}

abbrev AllSound : Panel → Type 0
AllSound p = All IsSound p.sessions

finish-AllSound : (age : ℕ) (msg : Text) (p : Panel) → AllSound p → AllSound (finish age msg p)
unfolding finish
finish-AllSound age msg p h =
    let ended = λ (s : Session) (found : get_elem? p.sessions age ≡ some s) (d : s.done ≡ false).
      All-update_at_elem IsSound (finished msg) age p.sessions found
        (finished-IsSound msg s d (All-get_elem? IsSound age p.sessions found h)) h in
    elim (Option-cases (get_elem? p.sessions age)) [
      | inl missed ↦ rw (missed, finish) h
      | inr (s, found) ↦ elim (Bool-cases s.done) [
        | inl d ↦ rw (found, finish) (rw d h)
        | inr d ↦
            rw (found, finish)
              (rw d (elim (Bool-cases s.on_close) [
                | inl c ↦ rw c (ended s found d)
                | inr c ↦ rw c (ended s found d)
              ]))
      ]
    ]

start-IsSound : (on_close : Bool) → IsSound (start on_close)
start-IsSound on_close = record { quiet = refl; shaken = refl }

on_click-AllSound : (p : Panel) → AllSound p → AllSound (on_click p)
unfolding on_click
on_click-AllSound p h = elim (Bool-cases p.disabled) [
  | inl d ↦ rw d h
  | inr d ↦ rw d (
    start-IsSound true,
    elim (Bool-cases p.teardown) [
      | inl t ↦ rw t (All-update_at IsSound dispose dispose-IsSound 0 p.sessions h)
      | inr t ↦ rw t h
    ],
  )
]

step-AllSound : (p : Panel) (e : Event) → AllSound p → AllSound (step p e)
unfolding step
step-AllSound p click h = on_click-AllSound p h
step-AllSound p (opened age rows cols) h =
    All-update_at IsSound _ (on_open-IsSound rows cols) age p.sessions h
step-AllSound p (message age t) h = All-update_at IsSound _ (output-IsSound t) age p.sessions h
step-AllSound p (socket_closed age) h =
    finish-AllSound age _ (at shut age p) (All-update_at IsSound shut shut-IsSound age p.sessions h)
step-AllSound p (socket_failed age) h = finish-AllSound age _ p h
step-AllSound p (typed age t) h = All-update_at IsSound _ (send-IsSound (keys t)) age p.sessions h
step-AllSound p (resized age rows cols) h =
    All-update_at IsSound _ (send-IsSound (resize rows cols)) age p.sessions h

-- On a panel that has had no session, after any events: each session shows exactly one closing
-- notice if it has finished and none before, and what it sent begins with the terminal's size;
-- nothing is sent while the socket is still connecting.
pub run-AllSound : (p : Panel) (es : List Event) → p.sessions ≡ [] → All IsSound (run p es).sessions
run-AllSound p es fresh = run-keeps AllSound step-AllSound p es (rw fresh tt)
