-- ===== src/Tests/Apply.antt =====
-- Apply jobs, the tables of workloads and the job manager.
use nixbox.Prelude.{
  All, List, Option, [], arith, codes, false, none, refl, some, true, ℕ, ◌++◌, ◌∷◌, ◌≡◌,
}
use nixbox.Nix.Rebuild.{switch, Command, Pipeline, rebuild}
use nixbox.Store.Workloads.{
  workload_by_id, latest_revision, Workload, Revision, Tables, Edit, save, enable, rename, create,
  run,
}
use nixbox.Apply.{apply_job, badge, pending, snapshot}
use nixbox.Apply.Badge.{apply_job-badge}
use nixbox.Jobs.{
  Job, JobKind, apply, rollback, Manager, Stage, Event, call, turn, restart, Reply, new_manager, ℤ,
  pos, negsuc, running, ok, failed, logging, is_running,
}
use nixbox.Jobs
use nixbox.Jobs.Exclusive.{IsExclusive, run-IsExclusive}
use nixbox.Jobs.Progress.{run-free}
use nixbox.Jobs.Records.{Fits, run-Fits}
use nixbox.Jobs.Tracked.{IsTracked, run-IsTracked}

abbrev web : Workload
web = record {
  id = 1;
  name = codes "web";
  display_name = codes "Web";
  typ = codes "container";
  enabled = true;
  applied_revision_id = none;
}

abbrev db : Workload
db = record web { id = 2; name = codes "db"; enabled = false }

abbrev first : Revision
first = record {
  id = 1;
  workload_id = 1;
  content = codes "{ }";
  ports = [];
  note = codes "created";
}

abbrev second : Revision
second = record first { id = 2; workload_id = 2 }

abbrev tables : Tables
tables = record { workloads = db ∷ web ∷ []; revisions = second ∷ first ∷ [] }

abbrev edits : List Edit
edits =
    rename 1 (codes "Site")
    ∷ save 2 (codes "{ a = 1; }") [] []
    ∷ save 1 (codes "{ b = 2; }") (codes "80/tcp") []
    ∷ enable 2 true
    ∷ create (codes "web") [] [] [] []
    ∷ []

abbrev pipeline : Pipeline
pipeline = record {
  host_flake = codes "/etc/nixos";
  host_attr = codes "host";
  state_dir = codes "/var/lib/nixbox/state";
  state_input_name = codes "nixbox-state";
  dry_run = false;
}

abbrev all_exit_0 : Command → Option ℕ
all_exit_0 c = some 0

apply_job-badge_example :
    let job = apply_job all_exit_0 (some 7) pipeline switch ((1, 1) ∷ []) (run tables edits) in
    (job.2 ≡ true) × (badge 1 job.1 ≡ some pending) × Unit {0}
unfolding snapshot workload_by_id latest_revision rebuild
apply_job-badge_example =
    apply_job-badge all_exit_0 (some 7) pipeline switch tables edits ((1, 1) ∷ []) 1 web first
      ((refl, tt), (tt, tt)) refl refl refl refl

abbrev stale : Job
stale = record {
  id = 1;
  kind = rollback;
  status = running;
  workload_id = none;
  exit_code = none;
  log_path = some 1;
  generation = none;
}

abbrev fine : Reply
fine = record {
  store_fails = false;
  inserted = true;
  file_fails = false;
  function_fails = false;
  exit_code = pos 0;
  generation = some 8;
}

abbrev fault : Reply
fault = record fine { store_fails = true }

abbrev broken_job : Reply
broken_job = record fine { function_fails = true }

-- Two requests, of which the second is refused, and two steps of the first one's job.
abbrev begun : List Event
begun = call apply (some 1) ∷ call rollback none ∷ turn 0 fine ∷ turn 0 fine ∷ []

abbrev six : List Event
six =
    turn 0 fine
    ∷ turn 0 broken_job
    ∷ call apply none
    ∷ turn 0 fine
    ∷ turn 0 fine
    ∷ turn 0 fine
    ∷ turn 0 fine
    ∷ []

run-IsExclusive_example :
    IsExclusive (Jobs.run (new_manager (stale ∷ [])) (begun ++ turn 0 fault ∷ []))
run-IsExclusive_example = run-IsExclusive (stale ∷ []) (begun ++ turn 0 fault ∷ [])

run-Fits_example : All Fits (Jobs.run (new_manager (stale ∷ [])) (begun ++ six)).jobs
run-Fits_example = run-Fits (stale ∷ []) (begun ++ six) (refl, tt)

run-IsTracked_example :
    let m = Jobs.run (new_manager (stale ∷ [])) (begun ++ six) in
    IsTracked m × (m.busy ≡ false → All (λ j. is_running j ≡ false) m.jobs)
run-IsTracked_example =
    run-IsTracked (stale ∷ []) (begun ++ six) (refl, tt)
      (tt, (tt, (refl, (refl, (refl, (refl, (tt, (refl, (refl, (refl, (refl, tt)))))))))))

run-free_example :
    (before : List Event) × (after : List Event) × (six ≡ before ++ after)
    × ((Jobs.run (Jobs.run (new_manager (stale ∷ [])) begun) before).busy ≡ false)
run-free_example = run-free (stale ∷ []) begun six (omega arith)
