-- ===== src/Jobs/Exclusive.antt =====
-- The flag `busy` of internal/jobs/jobs.go and the threads that get past it.
use mathlib.Core.Path.{subst}
use nixbox.Prelude.{List, [], arith, false, inl, inr, refl, suc, sym, true, zero, ◌∷◌, ◌≡◌, ◌⊎◌}
use nixbox.Jobs.{
  Manager, Stage, Reply, Event, Job, move, advance, step, run, new_manager, call, turn, restart,
  creating, logging, opening, working, finishing, leaving, put_back, start,
}

-- Either the flag is clear and no thread is past it, or it is set and exactly one is.
abbrev pub IsExclusive : Manager → Type 0
IsExclusive m =
    ((m.busy ≡ false) × (m.threads ≡ [])) ⊎ ((m.busy ≡ true) × (x : Stage) × (m.threads ≡ x ∷ []))

abbrev pub settle : Manager → List Stage → Manager
settle m ts = record m { threads = ts }

-- The flag stays set while the thread is still past it.
move-IsExclusive :
    (r : Reply) (x : Stage) (m : Manager)
    → m.busy ≡ true
    → let (m', next) = move r x m in IsExclusive (settle m' (put_back next []))
unfolding move
move-IsExclusive r (creating kind workload_id) m b = ground arith
move-IsExclusive r (logging id) m b = ground arith
move-IsExclusive r (opening id) m b = inr (b, _, refl)
move-IsExclusive r (working id) m b = inr (b, _, refl)
move-IsExclusive r (finishing id status code generation) m b = ground arith
move-IsExclusive r leaving m b = inl (refl, refl)

pub step-IsExclusive : (m : Manager) (e : Event) → IsExclusive m → IsExclusive (step m e)
unfolding step start advance
step-IsExclusive m (call kind workload_id) (inl (b, e)) = rw (b, e) (inr (refl, _, refl))
step-IsExclusive m (call kind workload_id) (inr (b, x, e)) = rw b (inr (refl, x, e))
step-IsExclusive m (turn n r) (inl (b, e)) = rw e (inl (b, refl))
step-IsExclusive m (turn zero r) (inr (b, x, e)) =
    subst (λ ts. let (m', rest) = advance zero r ts m in IsExclusive (settle m' rest)) (sym e)
      (move-IsExclusive r x m b)
step-IsExclusive m (turn (suc n) r) (inr (b, x, e)) = rw e (inr (b, x, refl))
step-IsExclusive m restart h = inl (refl, refl)

pub run_from-IsExclusive : (m : Manager) (es : List Event) → IsExclusive m → IsExclusive (run m es)
unfolding run
run_from-IsExclusive m [] h = h
run_from-IsExclusive m (e ∷ es) h = run_from-IsExclusive (step m e) es (step-IsExclusive m e h)

-- Whatever requests and threads do from the start of the process, in any order and with any faults:
-- either the flag is clear and no thread is past it, or it is set and exactly one is, so that two jobs
-- never run at once.
pub run-IsExclusive : (js : List Job) (es : List Event) → IsExclusive (run (new_manager js) es)
run-IsExclusive js es = run_from-IsExclusive (new_manager js) es (inl (refl, refl))
