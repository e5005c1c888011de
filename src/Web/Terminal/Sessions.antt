-- ===== src/Web/Terminal/Sessions.antt =====
-- The panel of web/editor/terminal.js over sequences of events.
use nixbox.Prelude.{
  All, All-get_elem?, All-update_at, Bool, Bool-cases, List, Option-cases, Text, [], ap, arith,
  codes, false, get_elem?, inl, inr, refl, some, suc, true, update_at, zero, ℕ, ◌∙◌, ◌∷◌, ◌≡◌, ◌⊎◌,
}
use nixbox.Web.Terminal.{
  Frame, resize, keys, output, Session, Panel, Event, click, opened, message, socket_closed,
  socket_failed, typed, resized, send, write, dispose, open_session, on_click, finish, on_open,
  step, run, finished, shut, red, at,
}

abbrev pub IsDone : Session → Type 0
IsDone s = s.done ≡ true

-- Every session but the newest is done, and so is the newest while the button is enabled.
abbrev pub IsExclusive : Bool → List Session → Type 0
IsExclusive disabled [] = Unit
IsExclusive disabled (s ∷ older) = ((s.done ≡ true) ⊎ (disabled ≡ true)) × All IsDone older

IsExclusive-update_at :
    (f : Session → Session)
    → ((s : Session) → (f s).done ≡ s.done)
    → (d : Bool) (n : ℕ) (ss : List Session) → IsExclusive d ss
    → IsExclusive d (update_at f n ss)
IsExclusive-update_at f keep d n [] h = tt
IsExclusive-update_at f keep d zero (s ∷ ss) (inl h, hs) = (inl (keep s ∙ h), hs)
IsExclusive-update_at f keep d zero (s ∷ ss) (inr h, hs) = (inr h, hs)
IsExclusive-update_at f keep d (suc n) (s ∷ ss) (h, hs) =
    (h, All-update_at IsDone f (λ x k. keep x ∙ k) n ss hs)

-- A session that is not done is the newest.
IsExclusive-finished :
    (f : Session → Session)
    → ((s : Session) → (f s).done ≡ true)
    → (d d' : Bool) (n : ℕ) (ss : List Session) {s : Session} → get_elem? ss n ≡ some s
    → s.done ≡ false
    → IsExclusive d ss
    → IsExclusive d' (update_at f n ss)
IsExclusive-finished f ends d d' n [] e k h = tt
IsExclusive-finished f ends d d' zero (s ∷ ss) e k (h, hs) = (inl (ends s), hs)
IsExclusive-finished f ends d d' (suc n) (s ∷ ss) e k (h, hs) =
    absurd (cc (All-get_elem? IsDone n ss e hs, k))

abbrev Exclusive : Panel → Type 0
Exclusive p = IsExclusive p.disabled p.sessions

send_done : (f : Frame) (s : Session) → (send f s).done ≡ s.done
unfolding send
send_done f s = ground arith

on_open_done : (rows cols : ℕ) (s : Session) → (on_open rows cols s).done ≡ s.done
unfolding on_open
on_open_done rows cols s = ground arith

finish-Exclusive : (age : ℕ) (msg : Text) (p : Panel) → Exclusive p → Exclusive (finish age msg p)
unfolding finish
finish-Exclusive age msg p h =
    let ends =
      λ (d' : Bool) (s : Session) (found : get_elem? p.sessions age ≡ some s) (d : s.done ≡ false).
        IsExclusive-finished (finished msg) (λ _. refl) p.disabled d' age p.sessions found d h in
    elim (Option-cases (get_elem? p.sessions age)) [
      | inl missed ↦ rw (missed, finish) h
      | inr (s, found) ↦ elim (Bool-cases s.done) [
        | inl d ↦ rw (found, finish) (rw d h)
        | inr d ↦
            rw (found, finish)
              (rw d (elim (Bool-cases s.on_close) [
                | inl c ↦ rw c (ends false s found d)
                | inr c ↦ rw c (ends p.disabled s found d)
              ]))
      ]
    ]

open_session-Exclusive :
    (on_close : Bool) (p : Panel)
    → All IsDone p.sessions
    → p.disabled ≡ true
    → Exclusive (open_session on_close p)
unfolding open_session
open_session-Exclusive on_close p h d = elim (Bool-cases p.teardown) [
  | inl t ↦ rw t (inr d, All-update_at IsDone dispose (λ _ k. k) 0 p.sessions h)
  | inr t ↦ rw t (inr d, h)
]

All-of-enabled : (ss : List Session) → IsExclusive false ss → All IsDone ss
All-of-enabled [] h = tt
All-of-enabled (s ∷ ss) (inl d, h) = (d, h)
All-of-enabled (s ∷ ss) (inr d, h) = cc

on_click-Exclusive : (p : Panel) → Exclusive p → Exclusive (on_click p)
unfolding on_click
on_click-Exclusive p h = elim (Bool-cases p.disabled) [
  | inl d ↦ rw d (rw d at h)
  | inr d ↦ rw d (
      open_session-Exclusive true (record p { hidden = false; disabled = true })
        (All-of-enabled p.sessions (rw d at h)) refl)
]

step-Exclusive : (p : Panel) (e : Event) → Exclusive p → Exclusive (step p e)
unfolding step
step-Exclusive p click h = on_click-Exclusive p h
step-Exclusive p (opened age rows cols) h =
    IsExclusive-update_at (on_open rows cols) (on_open_done rows cols) p.disabled age p.sessions h
step-Exclusive p (message age data_) h =
    IsExclusive-update_at (write (output data_)) (λ _. refl) p.disabled age p.sessions h
step-Exclusive p (socket_closed age) h =
    finish-Exclusive age _ _ (IsExclusive-update_at shut (λ _. refl) p.disabled age p.sessions h)
step-Exclusive p (socket_failed age) h = finish-Exclusive age _ p h
step-Exclusive p (typed age data_) h =
    IsExclusive-update_at (send (keys data_)) (send_done _) p.disabled age p.sessions h
step-Exclusive p (resized age rows cols) h =
    IsExclusive-update_at (send (resize rows cols)) (send_done _) p.disabled age p.sessions h

-- What every step keeps, a run keeps.
pub run-keeps {κ} :
    (P : Panel → Type κ)
    → ((p : Panel) (e : Event) → P p → P (step p e))
    → (p : Panel) (es : List Event) → P p
    → P (run p es)
unfolding run
run-keeps P keep p [] h = h
run-keeps P keep p (e ∷ es) h = run-keeps P keep (step p e) es (keep p e h)

-- On a panel that has had no session, whatever the user and the sockets do: every session but the
-- newest has finished, and while the button is enabled the newest has finished too.
pub run-Exclusive :
    (p : Panel) (es : List Event)
    → p.sessions ≡ []
    → IsExclusive (run p es).disabled (run p es).sessions
run-Exclusive p es fresh = run-keeps Exclusive step-Exclusive p es (rw fresh tt)

stale_done :
    (d : Bool) (ss : List Session) (age : ℕ) {s : Session}
    → IsExclusive d ss
    → get_elem? ss (suc age) ≡ some s
    → s.done ≡ true
stale_done d [] age h e = cc
stale_done d (t ∷ ss) age (h, hs) e = All-get_elem? IsDone age ss e hs

finish_stale : (age : ℕ) (msg : Text) (p : Panel) → Exclusive p → finish (suc age) msg p ≡ p
unfolding finish
finish_stale age msg p h = elim (Option-cases (get_elem? p.sessions (suc age))) [
  | inl missed ↦ rw (missed, finish)
  | inr (s, found) ↦ rw (found, finish) (rw (stale_done p.disabled p.sessions age h found))
]

-- On a panel that has had no session, after any events: a close of an older session's socket leaves
-- the button and its label as they are, and a failure of one changes nothing at all.
pub stale_close :
    (p : Panel) (es : List Event) (age : ℕ)
    → p.sessions ≡ []
    → let q = run p es in
      ((step q (socket_closed (suc age))).disabled ≡ q.disabled)
      × ((step q (socket_closed (suc age))).label ≡ q.label)
      × (step q (socket_failed (suc age)) ≡ q)
unfolding step
stale_close p es age fresh =
    let q = run p es in
    let h = run-Exclusive p es fresh in
    let shut_h = IsExclusive-update_at shut (λ _. refl) q.disabled (suc age) q.sessions h in
    let kept = finish_stale age (red (codes "[session closed]")) (at shut (suc age) q) shut_h in
    (
      ap (λ (r : Panel). r.disabled) kept,
      ap (λ (r : Panel). r.label) kept,
      finish_stale age (red (codes "[connection error]")) q h,
    )
