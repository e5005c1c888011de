-- ===== src/Jobs.antt =====
-- internal/jobs/jobs.go, the job manager, with the jobs table of internal/store/store.go. Several
-- requests and the goroutines of jobs take their steps in any order; each step is one atomic operation,
-- one call of the store, or a run of the job's function, whose results the step's reply has.
pub mod Exclusive
pub mod Records
pub mod Progress
pub mod Recover
pub mod Tracked
use nixbox.Prelude.{
  Bool, List, Option, [], false, if◌then◌else◌, leb, map, none, some, suc, true, zero, ℕ, ◌==◌, ◌∷◌,
}

pub data ℤ : Type 0 where
  pos : ℕ → ℤ
  negsuc : ℕ → ℤ

abbrev pub is_zero : ℤ → Bool
is_zero (pos n) = n == 0
is_zero (negsuc n) = false

pub data JobKind : Type 0 where
  apply flake_update rollback validate : JobKind

pub data JobStatus : Type 0 where
  running ok failed : JobStatus

-- A row. Its log path is job-N.log of the directory of logs, or still empty.
pub record Job : Type 0 where
  pub id : ℕ
  pub kind : JobKind
  pub status : JobStatus
  pub workload_id : Option ℕ
  pub exit_code : Option ℤ
  pub log_path : Option ℕ
  pub generation : Option ℕ

-- Where a thread stands that has got hold of the manager: in Start, before CreateJob and before
-- SetJobLogPath; in the goroutine, before os.Create, before the function and before FinishJob; and, in
-- either, before the flag is reset.
pub data Stage : Type 0 where
  creating : JobKind → Option ℕ → Stage
  logging opening working : ℕ → Stage
  finishing : ℕ → JobStatus → ℤ → Option ℕ → Stage
  leaving : Stage

pub record Manager : Type 0 where
  pub busy : Bool
  pub jobs : List Job
  pub threads : List Stage

-- What a step meets: whether the store reports an error, and whether an insert that does so has still
-- made the row; whether the log cannot be created; and what the function returns.
pub record Reply : Type 0 where
  pub store_fails : Bool
  pub inserted : Bool
  pub file_fails : Bool
  pub function_fails : Bool
  pub exit_code : ℤ
  pub generation : Option ℕ

abbrev pub max_id : List Job → ℕ
max_id [] = 0
max_id (j ∷ js) = let rest = max_id js in if leb rest j.id then j.id else rest

abbrev pub new_job : JobKind → Option ℕ → List Job → Job
new_job kind workload_id js = record {
  id = suc (max_id js);
  kind = kind;
  status = running;
  workload_id = workload_id;
  exit_code = none;
  log_path = none;
  generation = none;
}

abbrev pub update_job : (Job → Job) → ℕ → Job → Job
update_job f id j = if j.id == id then f j else j

unfoldable pub set_job_log_path : ℕ → List Job → List Job
set_job_log_path id js = map (update_job (λ j. record j { log_path = some id }) id) js

abbrev pub finished : JobStatus → ℤ → Option ℕ → Job → Job
finished status code generation j = record j {
  status = status;
  exit_code = some code;
  generation = generation;
}

unfoldable pub finish_job : ℕ → JobStatus → ℤ → Option ℕ → List Job → List Job
finish_job id status code generation js = map (update_job (finished status code generation) id) js

-- The status and the exit code that the function's result makes.
abbrev pub conclude : Bool → ℤ → JobStatus × ℤ
conclude fails code =
    if fails
    then (failed, if is_zero code then negsuc 0 else code)
    else (if is_zero code then ok else failed, code)

-- One step of a thread, and where it then stands, if it still holds the manager.
unfoldable pub move : Reply → Stage → Manager → Manager × Option Stage
unfolding set_job_log_path finish_job
move r (creating kind workload_id) m =
    let added = record m { jobs = new_job kind workload_id m.jobs ∷ m.jobs } in
    if r.store_fails
    then (if r.inserted then added else m, some leaving)
    else (added, some (logging (suc (max_id m.jobs))))
move r (logging id) m =
    if r.store_fails
    then (m, some leaving)
    else (record m { jobs = set_job_log_path id m.jobs }, some (opening id))
move r (opening id) m =
    (m, some (if r.file_fails then finishing id failed (negsuc 0) none else working id))
move r (working id) m =
    let (status, code) = conclude r.function_fails r.exit_code in
    (m, some (finishing id status code r.generation))
move r (finishing id status code generation) m =
    if r.store_fails
    then (m, some leaving)
    else (record m { jobs = finish_job id status code generation m.jobs }, some leaving)
move r leaving m = (record m { busy = false }, none)

abbrev pub put_back : Option Stage → List Stage → List Stage
put_back none ts = ts
put_back (some t) ts = t ∷ ts

-- The thread at a place in the list, if there is one, moves.
unfoldable pub advance : ℕ → Reply → List Stage → Manager → Manager × List Stage
unfolding move
advance n r [] m = (m, [])
advance zero r (t ∷ ts) m = let (m', next) = move r t m in (m', put_back next ts)
advance (suc n) r (t ∷ ts) m = let (m', ts') = advance n r ts m in (m', t ∷ ts')

-- The compare-and-swap at the top of Start: whether the caller gets hold of the manager, or ErrBusy.
unfoldable pub start : JobKind → Option ℕ → Manager → Manager × Bool
start kind workload_id m =
    if m.busy
    then (m, false)
    else (record m { busy = true; threads = creating kind workload_id ∷ m.threads }, true)

abbrev pub is_running : Job → Bool
is_running j = elim j.status [ running ↦ true | ok ↦ false | failed ↦ false ]

unfoldable pub running_jobs : List Job → List Job
running_jobs [] = []
running_jobs (j ∷ js) = let rest = running_jobs js in if is_running j then j ∷ rest else rest

-- RecoverStale, and its loop.
unfoldable pub fail_each : List Job → List Job → List Job
unfolding finish_job
fail_each [] js = js
fail_each (j ∷ stale) js = fail_each stale (finish_job j.id failed (negsuc 0) none js)

unfoldable pub recover_stale : List Job → List Job
unfolding running_jobs fail_each
recover_stale js = fail_each (running_jobs js) js

-- A request calls Start, a thread moves, or the process ends, at any point, and starts again.
pub data Event : Type 0 where
  call : JobKind → Option ℕ → Event
  turn : ℕ → Reply → Event
  restart : Event

unfoldable pub step : Manager → Event → Manager
unfolding start advance recover_stale
step m (call kind workload_id) = (start kind workload_id m).0
step m (turn n r) = let (m', ts) = advance n r m.threads m in record m' { threads = ts }
step m restart = record { busy = false; jobs = recover_stale m.jobs; threads = [] }

unfoldable pub run : Manager → List Event → Manager
unfolding step
run m [] = m
run m (e ∷ es) = run (step m e) es

-- A first start of the process, with the table as it is in the database.
abbrev pub new_manager : List Job → Manager
new_manager js = record { busy = false; jobs = recover_stale js; threads = [] }
