-- ===== src/Jobs/Tracked.antt =====
-- Which row of the table of jobs is marked as running, in internal/jobs/jobs.go.
use mathlib.Core.Path.{subst}
use nixbox.Prelude.{
  All, Bool, Bool-cases, List, Option, [], false, if◌then◌else◌, imp-All, inl, inr, none, refl,
  some, suc, sym, true, zero, ℕ, ◌∷◌, ◌≡◌,
}
use nixbox.Jobs.{
  JobKind, Manager, Stage, Reply, Event, Job, move, advance, step, run, new_manager, call, turn,
  restart, creating, logging, opening, working, finishing, leaving, put_back, start, running_jobs,
  recover_stale, is_running, max_id,
}
use nixbox.Jobs.Exclusive.{IsExclusive, run-IsExclusive, step-IsExclusive, settle}
use nixbox.Jobs.Recover.{
  current, Only, from_none, finish_job-Only, set_job_log_path-Only, recover_stale-Only,
}
use nixbox.Jobs.Records.{Fits, StageFits, step-Fits, fail_each-Fits}

abbrev pub IsTracked : Manager → Type 0
IsTracked m = All (λ j. Only (current m.threads) j) m.jobs

-- An event in which the store reports no error.
abbrev pub IsStored : Event → Type 0
IsStored (call kind workload_id) = Unit
IsStored (turn n r) = r.store_fails ≡ false
IsStored restart = Unit

move-Only :
    (r : Reply) (x : Stage) (m : Manager)
    → r.store_fails ≡ false
    → StageFits x
    → All (λ j. Only (current (x ∷ [])) j) m.jobs
    → All (λ j. Only (current (put_back (move r x m).1 [])) j) (move r x m).0.jobs
unfolding move
move-Only r (creating kind workload_id) m stored fit h =
    rw stored (λ _. refl, from_none (some (suc (max_id m.jobs))) m.jobs h)
move-Only r (logging id) m stored fit h = rw stored (set_job_log_path-Only (some id) id m.jobs h)
move-Only r (opening id) m stored fit h = elim (Bool-cases r.file_fails) [
  | inl t ↦ rw t h
  | inr f ↦ rw f h
]
move-Only r (working id) m stored fit h = h
move-Only r (finishing id status code generation) m stored fit h =
    rw stored (finish_job-Only id status code generation m.jobs fit h)
move-Only r leaving m stored fit h = h

abbrev start_if : Bool → Manager → JobKind → Option ℕ → Manager × Bool
start_if busy m kind workload_id =
    if busy
    then (m, false)
    else (record m { busy = true; threads = creating kind workload_id ∷ m.threads }, true)

step-IsTracked :
    (m : Manager) (e : Event)
    → IsExclusive m
    → IsStored e
    → All StageFits m.threads
    → IsTracked m
    → IsTracked (step m e)
unfolding step start advance
step-IsTracked m (call kind workload_id) (inl (b, none_)) stored fit h =
    let idle : All (λ j. Only none j) m.jobs =
      subst (λ ts. All (λ j. Only (current ts) j) m.jobs) none_ h in
    subst (λ c. IsTracked (start_if c m kind workload_id).0) (sym b) idle
step-IsTracked m (call kind workload_id) (inr (b, x, one)) stored fit h =
    subst (λ c. IsTracked (start_if c m kind workload_id).0) (sym b) h
step-IsTracked m (turn n r) (inl (b, none_)) stored fit h =
    subst (λ ts. let (m', rest) = advance n r ts m in IsTracked (settle m' rest)) (sym none_)
      (subst (λ ts. All (λ j. Only (current ts) j) m.jobs) none_ h)
step-IsTracked m (turn zero r) (inr (b, x, one)) stored fit h =
    let (fit_one, _) = subst (λ ts. All StageFits ts) one fit in
    subst (λ ts. let (m', rest) = advance zero r ts m in IsTracked (settle m' rest)) (sym one)
      (move-Only r x m stored fit_one (subst (λ ts. All (λ j. Only (current ts) j) m.jobs) one h))
step-IsTracked m (turn (suc n) r) (inr (b, x, one)) stored fit h =
    subst (λ ts. let (m', rest) = advance (suc n) r ts m in IsTracked (settle m' rest)) (sym one)
      (subst (λ ts. All (λ j. Only (current ts) j) m.jobs) one h)
step-IsTracked m restart x stored fit h = recover_stale-Only m.jobs

run_from-IsTracked :
    (m : Manager) (es : List Event)
    → IsExclusive m
    → All IsStored es
    → All StageFits m.threads
    → All Fits m.jobs
    → IsTracked m
    → IsTracked (run m es)
unfolding run
run_from-IsTracked m [] ex stored sf f h = h
run_from-IsTracked m (e ∷ es) ex (st, stored) sf f h =
    let (f', sf') = step-Fits m e sf f in
    run_from-IsTracked (step m e) es (step-IsExclusive m e ex) stored sf' f'
      (step-IsTracked m e ex st sf h)

free-current : (m : Manager) → IsExclusive m → m.busy ≡ false → current m.threads ≡ none
free-current m (inl (b, e)) free = rw e refl
free-current m (inr (b, x, e)) free = cc

-- If each finished row of the table has an exit code that fits its status, and the store then reports
-- no error (the log files and the functions of jobs may): whatever calls and restarts come, a row is
-- marked as running only if the thread past the flag is at its job; so, while the flag is clear, no row
-- is.
pub run-IsTracked :
    (js : List Job) (es : List Event)
    → All Fits js
    → All IsStored es
    → let m = run (new_manager js) es in
      IsTracked m × (m.busy ≡ false → All (λ j. is_running j ≡ false) m.jobs)
unfolding recover_stale
run-IsTracked js es fit stored =
    let m = run (new_manager js) es in
    let tracked =
      run_from-IsTracked (new_manager js) es (inl (refl, refl)) stored tt
        (fail_each-Fits (running_jobs js) js fit) (recover_stale-Only js) in
    (
      tracked,
      λ free.
          let idle = free-current m (run-IsExclusive js es) free in
          imp-All (λ j. Only (current m.threads) j) (λ j. is_running j ≡ false) m.jobs
            (λ j k. elim (Bool-cases (is_running j)) [
              | inl t ↦ absurd (let e = k t in cc)
              | inr f ↦ f
            ])
            tracked,
    )
