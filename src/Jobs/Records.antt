-- ===== src/Jobs/Records.antt =====
-- The rows that the job manager of internal/jobs/jobs.go leaves in the table of jobs.
use nixbox.Prelude.{
  All, Bool, Bool-cases, List, Option, Option-cases, [], false, inl, inr, map-All, none, not, refl,
  some, suc, true, zero, ℕ, ◌==◌, ◌∷◌, ◌≡◌,
}
use nixbox.Jobs.{
  Manager, Stage, Reply, Event, Job, JobStatus, ℤ, is_zero, running, ok, failed, move, advance,
  step, run, new_manager, call, turn, restart, creating, logging, opening, working, finishing,
  leaving, put_back, start, update_job, finished, finish_job, set_job_log_path, running_jobs,
  fail_each, recover_stale, conclude, negsuc,
}

-- A job that runs has no exit code, one that is ok has 0, and a failed one has another.
abbrev pub fits : JobStatus → Option ℤ → Bool
fits running none = true
fits running (some c) = false
fits ok none = false
fits ok (some c) = is_zero c
fits failed none = false
fits failed (some c) = not (is_zero c)

abbrev pub Fits : Job → Type 0
Fits j = fits j.status j.exit_code ≡ true

abbrev pub StageFits : Stage → Type 0
StageFits (creating kind workload_id) = Unit
StageFits (logging id) = Unit
StageFits (opening id) = Unit
StageFits (working id) = Unit
StageFits (finishing id status code generation) = fits status (some code) ≡ true
StageFits leaving = Unit

finish_job-Fits :
    (id : ℕ) (status : JobStatus) (code : ℤ) (generation : Option ℕ) (js : List Job)
    → fits status (some code) ≡ true
    → All Fits js
    → All Fits (finish_job id status code generation js)
unfolding finish_job
finish_job-Fits id status code generation js fit h =
    map-All Fits Fits (update_job (finished status code generation) id) js
      (λ j k. elim (Bool-cases (j.id == id)) [ inl t ↦ rw t fit | inr f ↦ rw f k ]) h

set_job_log_path-Fits : (id : ℕ) (js : List Job) → All Fits js → All Fits (set_job_log_path id js)
unfolding set_job_log_path
set_job_log_path-Fits id js h =
    map-All Fits Fits (update_job (λ j. record j { log_path = some id }) id) js
      (λ j k. elim (Bool-cases (j.id == id)) [ inl t ↦ rw t k | inr f ↦ rw f k ]) h

pub fail_each-Fits : (stale js : List Job) → All Fits js → All Fits (fail_each stale js)
unfolding fail_each
fail_each-Fits [] js h = h
fail_each-Fits (j ∷ stale) js h =
    fail_each-Fits stale (finish_job j.id failed (negsuc 0) none js)
      (finish_job-Fits j.id failed (negsuc 0) none js refl h)

conclude-fits :
    (fails : Bool) (code : ℤ)
    → let (status, exit) = conclude fails code in fits status (some exit) ≡ true
conclude-fits true code = elim (Bool-cases (is_zero code)) [
  | inl z ↦ rw z refl
  | inr z ↦ rw (z, z) refl
]
conclude-fits false code = elim (Bool-cases (is_zero code)) [
  | inl z ↦ rw (z, z) refl
  | inr z ↦ rw (z, z) refl
]

move-Fits :
    (r : Reply) (x : Stage) (m : Manager)
    → StageFits x
    → All Fits m.jobs
    → All Fits (move r x m).0.jobs × All StageFits (put_back (move r x m).1 [])
unfolding move
move-Fits r (creating kind workload_id) m s h = elim (Bool-cases r.store_fails) [
  | inl t ↦ elim (Bool-cases r.inserted) [
    | inl i ↦ rw (t, i) ((refl, h), (tt, tt))
    | inr i ↦ rw (t, i) (h, (tt, tt))
  ]
  | inr f ↦ rw f ((refl, h), (tt, tt))
]
move-Fits r (logging id) m s h = elim (Bool-cases r.store_fails) [
  | inl t ↦ rw t (h, (tt, tt))
  | inr f ↦ rw f (set_job_log_path-Fits id m.jobs h, (tt, tt))
]
move-Fits r (opening id) m s h = elim (Bool-cases r.file_fails) [
  | inl t ↦ rw t (h, (refl, tt))
  | inr f ↦ rw f (h, (tt, tt))
]
move-Fits r (working id) m s h = (h, (conclude-fits r.function_fails r.exit_code, tt))
move-Fits r (finishing id status code generation) m s h = elim (Bool-cases r.store_fails) [
  | inl t ↦ rw t (h, (tt, tt))
  | inr f ↦ rw f (finish_job-Fits id status code generation m.jobs s h, (tt, tt))
]
move-Fits r leaving m s h = (h, tt)

advance-Fits :
    (n : ℕ) (r : Reply) (ts : List Stage) (m : Manager)
    → All StageFits ts
    → All Fits m.jobs
    → All Fits (advance n r ts m).0.jobs × All StageFits (advance n r ts m).1
unfolding advance
advance-Fits n r [] m s h = (h, tt)
advance-Fits zero r (t ∷ ts) m (s, ss) h =
    let (h', s') = move-Fits r t m s h in
    elim (Option-cases (move r t m).1) [
      | inl gone ↦ rw gone (h', ss)
      | inr (x, next) ↦ rw next (h', ((rw next at s').0, ss))
    ]
advance-Fits (suc n) r (t ∷ ts) m (s, ss) h =
    let (h', ss') = advance-Fits n r ts m ss h in (h', (s, ss'))

pub step-Fits :
    (m : Manager) (e : Event)
    → All StageFits m.threads
    → All Fits m.jobs
    → All Fits (step m e).jobs × All StageFits (step m e).threads
unfolding step start recover_stale
step-Fits m (call kind workload_id) s h = elim (Bool-cases m.busy) [
  | inl b ↦ rw b (h, s)
  | inr b ↦ rw b (h, (tt, s))
]
step-Fits m (turn n r) s h = advance-Fits n r m.threads m s h
step-Fits m restart s h = (fail_each-Fits (running_jobs m.jobs) m.jobs h, tt)

run_from-Fits :
    (m : Manager) (es : List Event)
    → All StageFits m.threads
    → All Fits m.jobs
    → All Fits (run m es).jobs
unfolding run
run_from-Fits m [] s h = h
run_from-Fits m (e ∷ es) s h = let (h', s') = step-Fits m e s h in run_from-Fits (step m e) es s' h'

-- If every row of the table of jobs is so when the process starts, then every row is so after any calls,
-- faults and restarts: a job that is running has no exit code, a job that is ok has the exit code 0, and
-- a failed job has an exit code that is not 0.
pub run-Fits :
    (js : List Job) (es : List Event) → All Fits js → All Fits (run (new_manager js) es).jobs
unfolding recover_stale
run-Fits js es h = run_from-Fits (new_manager js) es tt (fail_each-Fits (running_jobs js) js h)
