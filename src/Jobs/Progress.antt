-- ===== src/Jobs/Progress.antt =====
-- How a job of internal/jobs/jobs.go comes to its end.
use mathlib.Core.Path.{subst}
use nixbox.Prelude.{
  List, [], ap, arith, false, inl, inr, refl, suc, sym, true, zero, ℕ, ◌++◌, ◌<◌, ◌∷◌, ◌≡◌, ◌≤◌,
}
use nixbox.Jobs.{
  Manager, Stage, Reply, Event, Job, move, advance, step, run, new_manager, call, turn, restart,
  creating, logging, opening, working, finishing, leaving, put_back, start,
}
use nixbox.Jobs.Exclusive.{IsExclusive, step-IsExclusive, run-IsExclusive}

-- The most steps that are left.
abbrev pub steps_left : Stage → ℕ
steps_left (creating kind workload_id) = 6
steps_left (logging id) = 5
steps_left (opening id) = 4
steps_left (working id) = 3
steps_left (finishing id status code generation) = 2
steps_left leaving = 1

abbrev pub most : List Stage → ℕ
most [] = 0
most (x ∷ xs) = steps_left x

-- The steps of the first thread.
abbrev pub turns : List Event → ℕ
turns [] = 0
turns (call kind workload_id ∷ es) = turns es
turns (turn zero r ∷ es) = suc (turns es)
turns (turn (suc n) r ∷ es) = turns es
turns (restart ∷ es) = turns es

move-steps_left :
    (r : Reply) (x : Stage) (m : Manager) → most (put_back (move r x m).1 []) < steps_left x
unfolding move
move-steps_left r (creating kind workload_id) m = ground arith
move-steps_left r (logging id) m = ground arith
move-steps_left r (opening id) m = ground arith
move-steps_left r (working id) m = ground arith
move-steps_left r (finishing id status code generation) m = ground arith
move-steps_left r leaving m = ground arith

step-turns :
    (m : Manager) (x : Stage) (e : Event) (es : List Event)
    → m.busy ≡ true
    → m.threads ≡ x ∷ []
    → steps_left x ≤ turns (e ∷ es)
    → most (step m e).threads ≤ turns es
unfolding step start advance
step-turns m x (call kind workload_id) es b one h = rw b (rw one h)
step-turns m x (turn zero r) es b one h =
    let less = move-steps_left r x m in
    subst (λ ts. most (advance zero r ts m).1 ≤ turns es) (sym one) (omega arith)
step-turns m x (turn (suc n) r) es b one h = rw one h
step-turns m x restart es b one h = omega arith

steps_left-bound : (x : Stage) → (0 < steps_left x) × (steps_left x ≤ 6)
steps_left-bound (creating kind workload_id) = (omega arith, omega arith)
steps_left-bound (logging id) = (omega arith, omega arith)
steps_left-bound (opening id) = (omega arith, omega arith)
steps_left-bound (working id) = (omega arith, omega arith)
steps_left-bound (finishing id status code generation) = (omega arith, omega arith)
steps_left-bound leaving = (omega arith, omega arith)

free_within :
    (m : Manager) (es : List Event)
    → IsExclusive m
    → most m.threads ≤ turns es
    → (before : List Event) × (after : List Event) × (es ≡ before ++ after)
      × ((run m before).busy ≡ false)
unfolding run
free_within m es (inl (b, none_)) h = ([], es, refl, b)
free_within m [] (inr (b, x, one)) h =
    let (some_left, _) = steps_left-bound x in
    let h' : steps_left x ≤ 0 = rw one at h in absurd (omega arith)
free_within m (e ∷ es) (inr (b, x, one)) h =
    let h' : steps_left x ≤ turns (e ∷ es) = rw one at h in
    let (before, after, same, free) =
      free_within (step m e) es (step-IsExclusive m e (inr (b, x, one)))
        (step-turns m x e es b one h') in
    (e ∷ before, after, ap (λ l. e ∷ l) same, free)

most-bound : (m : Manager) → IsExclusive m → most m.threads ≤ 6
most-bound m (inl (b, e)) = rw e (omega arith)
most-bound m (inr (b, x, e)) = rw e (let (_, few) = steps_left-bound x in few)

-- From every state that the manager can come to, and whatever calls, faults and restarts come between:
-- by the time the thread past the flag has taken six steps, the flag has been clear at some point, so
-- that the next call gets hold of the manager.
pub run-free :
    (js : List Job) (past es : List Event)
    → 6 ≤ turns es
    → (before : List Event) × (after : List Event) × (es ≡ before ++ after)
      × ((run (run (new_manager js) past) before).busy ≡ false)
run-free js past es h =
    let m = run (new_manager js) past in
    let ok = run-IsExclusive js past in
    let most_ = most-bound m ok in free_within m es ok (omega arith)
