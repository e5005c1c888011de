-- ===== src/Server/Tail/Stops.antt =====
-- When the loop of handleJobEvents of internal/server/sse.go returns, and what it has sent by then.
use mathlib.Core.Path.{subst}
use nixbox.Server.Tail.Lines.{wire-split}
use nixbox.Server.Tail.Polls.{GoesOn, IsOver}
use nixbox.Prelude.{
  All, Bool, Bool-cases, List, Text, [], ap, codes, false, inl, inr, none, refl, some, sym, text_eq,
  text_eq_sound, true, ◌++◌, ◌∙◌, ◌∷◌, ◌≡◌, ◌⊎◌,
}
use nixbox.Server.Tail.{
  done_wire, ending, flush, found, missing, broken, Found, Poll, read_more, serve, Tail, wire,
}

-- The request is cancelled while the job runs.
abbrev pub IsCancelled : Poll → Type 0
IsCancelled p = (p.job ≡ found (codes "running")) × (p.cancelled ≡ true)

-- Why a turn is the last one, with the end of what is sent.
abbrev pub Last : Poll → Text → Type 0
Last p sent =
    ((status : Text) × IsOver status p.job × (sent ≡ done_wire status))
    ⊎ (IsCancelled p × (sent ≡ []))

-- The handler returns at a turn of the list: all before it go on, it is a last one, what is sent is
-- some lines and its end, and no later turn adds to that.
abbrev pub Stopped : Tail → List Poll → Type 0
Stopped s ps =
    (early : List Poll) × (last : Poll) × (later : List Poll) × (sent : Text) × (lines : List Text)
    × (ps ≡ early ++ last ∷ later)
    × All GoesOn early
    × Last last sent
    × (serve s ps ≡ (wire lines ++ sent, true))
    × (serve s (early ++ last ∷ []) ≡ (wire lines ++ sent, true))

abbrev GoesOnFrom : Tail → List Poll → Type 0
GoesOnFrom s ps = All GoesOn ps × ((serve s ps).1 ≡ false)

sent_over :
    (s : Tail) (p : Poll) (status : Text) (ps : List Poll)
    → ending p.job ≡ some status
    → let (t, lines) = read_more s p in
      serve s (p ∷ ps) ≡ (wire (lines ++ flush t.pending) ++ done_wire status, true)
unfolding serve
sent_over s p status ps e = rw e (
    let (t, lines) = read_more s p in
    ap (λ (x : Text). (x, true)) (wire-split lines (flush t.pending) (done_wire status)))

over :
    (s : Tail) (p : Poll) (status : Text) (ps : List Poll)
    → ending p.job ≡ some status
    → IsOver status p.job
    → Stopped s (p ∷ ps)
over s p status ps e is = (
  [],
  p,
  ps,
  done_wire status,
  (read_more s p).1 ++ flush (read_more s p).0.pending,
  refl,
  tt,
  inl (status, is, refl),
  sent_over s p status ps e,
  sent_over s p status [] e,
)

sent_cancelled :
    (s : Tail) (p : Poll) (ps : List Poll)
    → ending p.job ≡ none
    → p.cancelled ≡ true
    → serve s (p ∷ ps) ≡ (wire (read_more s p).1 ++ [], true)
unfolding serve
sent_cancelled s p ps e c = rw (e, c) refl

sent_on :
    (s : Tail) (p : Poll) (ps : List Poll)
    → ending p.job ≡ none
    → p.cancelled ≡ false
    → let (t, lines) = read_more s p in
      serve s (p ∷ ps) ≡ (wire lines ++ (serve t ps).0, (serve t ps).1)
unfolding serve
sent_on s p ps e c = rw (e, c) refl

on :
    (s : Tail) (p : Poll) (ps : List Poll)
    → p.job ≡ found (codes "running")
    → ending p.job ≡ none
    → p.cancelled ≡ false
    → GoesOnFrom (read_more s p).0 ps ⊎ Stopped (read_more s p).0 ps
    → GoesOnFrom s (p ∷ ps) ⊎ Stopped s (p ∷ ps)
on s p ps runs e c (inl (quiet, open_)) =
    inl (((runs, c), quiet), ap (λ (x : Text × Bool). x.1) (sent_on s p ps e c) ∙ open_)
on s p ps runs e c (inr (early, last, later, sent, lines, split_, quiet, why, all_, first)) =
    let go : (rest : List Poll)
        → serve (read_more s p).0 rest ≡ (wire lines ++ sent, true)
        → serve s (p ∷ rest) ≡ (wire ((read_more s p).1 ++ lines) ++ sent, true) =
      λ rest same.
        sent_on s p rest e c
        ∙ (ap (λ (x : Text × Bool). (wire (read_more s p).1 ++ x.0, x.1)) same
            ∙ ap (λ (x : Text). (x, true)) (wire-split (read_more s p).1 lines sent)) in
    inr (
      p ∷ early,
      last,
      later,
      sent,
      (read_more s p).1 ++ lines,
      ap (◌∷◌ p) split_,
      ((runs, c), quiet),
      why,
      go ps all_,
      go (early ++ last ∷ []) first,
    )

-- Whatever the log file and the jobs table answer: either the job runs and the request goes on in all of
-- these turns of the loop, and the handler has not returned; or it returns at the first turn that finds
-- otherwise, and has sent some lines and then, as the last event, `done` with the status of the job, which
-- is `failed` if its row is gone or cannot be read, or no such event if the request was cancelled while the
-- job ran. What it is given afterwards makes no difference.
pub serve-stops :
    (s : Tail) (ps : List Poll) → (All GoesOn ps × ((serve s ps).1 ≡ false)) ⊎ Stopped s ps
unfolding serve ending
serve-stops s [] = inl (tt, refl)
serve-stops s (p ∷ ps) = turn p.job refl (serve-stops (read_more s p).0 ps)
  where
    turn :
        (job : Found)
        → p.job ≡ job
        → GoesOnFrom (read_more s p).0 ps ⊎ Stopped (read_more s p).0 ps
        → GoesOnFrom s (p ∷ ps) ⊎ Stopped s (p ∷ ps)
    turn missing e rest =
        inr (
          over s p (codes "failed") ps (ap ending e) (subst (IsOver (codes "failed")) (sym e) refl))
    turn broken e rest =
        inr (
          over s p (codes "failed") ps (ap ending e) (subst (IsOver (codes "failed")) (sym e) refl))
    turn (found st) e rest = elim (Bool-cases (text_eq st (codes "running"))) [
      | inr ended ↦
          inr
            (over s p st ps (ap ending e ∙ rw ended refl) (subst (IsOver st) (sym e) (refl, ended)))
      | inl runs ↦
          let running = e ∙ ap found (text_eq_sound st (codes "running") runs) in
          let goes = ap ending e ∙ rw runs refl in
          elim (Bool-cases p.cancelled) [
            | inl c ↦ inr (
              [],
              p,
              ps,
              [],
              (read_more s p).1,
              refl,
              tt,
              inr ((running, c), refl),
              sent_cancelled s p ps goes c,
              sent_cancelled s p [] goes c,
            )
            | inr c ↦ on s p ps running goes c rest
          ]
    ]
