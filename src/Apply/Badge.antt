-- ===== src/Apply/Badge.antt =====
-- startApply of internal/server/handlers_system.go with the edits made while its job runs, and the
-- state that workloadDetailData of handlers_workload.go then shows.
use nixbox.Prelude.{
  All, Bool, Bool-cases, List, Option, Option-cases, [], ap, arith, false, if◌then◌else◌, inl, inr,
  none, not, refl, some, suc, sym, true, zero, ℕ, ◌&&◌, ◌∙◌, ◌∷◌, ◌≡◌,
}
use nixbox.Nix.Rebuild.{
  switch, test, build, Outcome, flake_lock, flake_update, nixos_rebuild, then_run, effective,
  rebuild-dry, IsSafe, Mode, Command, Pipeline, rebuild, is_build,
}
use nixbox.Store.Workloads.{
  Workload, Revision, Tables, find_id, find_name, has_revision, Edit, create, enable, rename, save,
  create_workload, save_revision, step, run, workload_by_id, latest_revision,
}
use nixbox.Store.Workloads.Rows.{saves, run-Has, Moved}
use nixbox.Apply.{
  is_done, Mode, Pipeline, Command, apply_job, snapshot, mark_all, badge, compare_applied, applied,
  pending,
}
use nixbox.Apply.Marks.{Exist, mark_all_lem, PrimaryKey, snapshot_of-Exist, mark_of-snapshot}

-- Revisions stay.
has_revision-step :
    (rid : ℕ) (t : Tables) (e : Edit)
    → has_revision rid t.revisions ≡ true
    → has_revision rid (step t e).revisions ≡ true
unfolding step create_workload save_revision has_revision
has_revision-step rid t (create name display_name typ content ports) h =
    elim (Option-cases (find_name name t.workloads)) [
      | inl free ↦ rw (free, step, create_workload) (ground arith)
      | inr (w, taken) ↦ rw (taken, step, create_workload) h
    ]
has_revision-step rid t (enable id on) h = h
has_revision-step rid t (rename id name) h = h
has_revision-step rid t (save id content ports note) h =
    elim (Option-cases (find_id id t.workloads)) [
      | inl none_ ↦ rw (none_, step, save_revision) h
      | inr (w, found) ↦ rw (found, step, save_revision) (ground arith)
    ]

has_revision-run :
    (rid : ℕ) (t : Tables) (es : List Edit)
    → has_revision rid t.revisions ≡ true
    → has_revision rid (run t es).revisions ≡ true
unfolding run
has_revision-run rid t [] h = h
has_revision-run rid t (e ∷ es) h = has_revision-run rid (step t e) es (has_revision-step rid t e h)

Exist-run :
    (ms : List (ℕ × ℕ)) (t : Tables) (es : List Edit)
    → Exist t.revisions ms
    → Exist (run t es).revisions ms
Exist-run [] t es h = tt
Exist-run ((wid, rid) ∷ ms) t es (h, hs) = (has_revision-run rid t es h, Exist-run ms t es hs)

compare_applied-Moved :
    (saved : Bool) (r l : Revision)
    → Moved saved r l
    → compare_applied (some r.id) l.id ≡ (if saved then pending else applied)
compare_applied-Moved saved r l (inl (e, same)) = ground arith
compare_applied-Moved saved r l (inr (e, lt)) = ground arith

-- Let an apply job take its snapshot of the tables `t`, where the ids of workloads differ and a
-- workload is enabled and has a latest revision, and let any edits `es` come while the job runs. Then
-- all the marks that the job makes on success are made, and the workload's page shows `pending` if one
-- of the edits saved a revision of it, and `applied` otherwise.
pub badge-mark_all :
    (t : Tables) (es : List Edit) (ms : List (ℕ × ℕ)) (wid : ℕ) (w : Workload) (r : Revision)
    → PrimaryKey t.workloads
    → snapshot t ≡ some ms
    → workload_by_id wid t ≡ some w
    → w.enabled ≡ true
    → latest_revision wid t ≡ some r
    → ((mark_all ms (run t es)).1 ≡ true)
      × (badge wid (mark_all ms (run t es)).0 ≡ some (if saves wid es then pending else applied))
unfolding snapshot workload_by_id latest_revision badge
badge-mark_all t es ms wid w r key snap found on latest =
    let (l, ((v, still), newest_), moved) = run-Has wid t r es ((w, found), latest) in
    let exist = Exist-run ms t es (snapshot_of-Exist t.workloads t.revisions ms snap) in
    let (ok, revs, row) = mark_all_lem ms wid (run t es) v exist still in
    let mark = mark_of-snapshot t.workloads t.revisions ms wid w r key snap found on latest in
    (ok, rw (row, revs, newest_, mark) (ap some (compare_applied-Moved (saves wid es) r l moved)))

abbrev pub exits_0 : Option ℕ → Bool
exits_0 none = false
exits_0 (some zero) = true
exits_0 (some (suc code)) = false

-- The mode was asked for to activate a system.
abbrev pub activates : Mode → Bool
activates switch = true
activates test = true
activates build = false

-- The three commands exit with 0; in a dry run the last one builds.
abbrev pub all_exit : (Command → Option ℕ) → Pipeline → Mode → Bool
all_exit stream p mode =
    exits_0 (stream (flake_lock p.state_dir))
    && (exits_0 (stream (flake_update p.state_input_name p.host_flake))
        && exits_0
            (stream (nixos_rebuild (if p.dry_run then build else mode) p.host_flake p.host_attr)))

effective_lem : (dry : Bool) (mode : Mode) → effective dry mode ≡ (if dry then build else mode)
unfolding effective
effective_lem false mode = refl
effective_lem true switch = refl
effective_lem true test = refl
effective_lem true build = refl

not-is_build : (mode : Mode) → not (is_build mode) ≡ activates mode
not-is_build switch = refl
not-is_build test = refl
not-is_build build = refl

is_done-then_run :
    (stream : Command → Option ℕ) (generation : Option ℕ) (c : Command) (r : List Command × Outcome)
    → is_done (then_run stream generation c r).1 ≡ (exits_0 (stream c) && is_done r.1)
unfolding then_run
is_done-then_run stream generation c r = go (stream c) refl
  where
    go :
        (answer : Option ℕ)
        → stream c ≡ answer
        → is_done (then_run stream generation c r).1 ≡ (exits_0 answer && is_done r.1)
    go none e = rw (e, then_run) refl
    go (some zero) e = rw (e, then_run) refl
    go (some (suc code)) e = ground (arith, e)

is_done-rebuild :
    (stream : Command → Option ℕ) (generation : Option ℕ) (p : Pipeline) (mode : Mode)
    → is_done (rebuild stream generation p mode).1 ≡ all_exit stream p mode
unfolding rebuild
is_done-rebuild stream generation p mode =
    rw (is_done-then_run stream generation, effective_lem p.dry_run mode) (ground arith)

IsSafe-if :
    (b : Bool) (cs : List Command)
    → (b ≡ true → All IsSafe cs)
    → if b then All IsSafe cs else Unit {0}
IsSafe-if false cs safe = tt
IsSafe-if true cs safe = safe refl

-- An apply job of the pipeline `p` takes its snapshot of the tables `t`, where the ids of workloads differ
-- and a workload is enabled and has a latest revision, and any edits `es` come while the job runs. The job
-- is a success exactly if `nix flake lock`, `nix flake update` and `nixos-rebuild`, which builds in a dry
-- run, all exit with 0. If so, and if the mode asked for is `switch` or `test`, the workload's page shows
-- `pending` if one of the edits saved a revision of it, and `applied` if none did, in a dry run too, where
-- no command activates a system; if not, the job leaves the tables as the edits left them.
pub apply_job-badge :
    (stream : Command → Option ℕ) (generation : Option ℕ) (p : Pipeline) (mode : Mode) (t : Tables)
    (es : List Edit) (ms : List (ℕ × ℕ)) (wid : ℕ) (w : Workload) (r : Revision)
    → PrimaryKey t.workloads
    → snapshot t ≡ some ms
    → workload_by_id wid t ≡ some w
    → w.enabled ≡ true
    → latest_revision wid t ≡ some r
    → let job = apply_job stream generation p mode ms (run t es) in
      (job.2 ≡ all_exit stream p mode)
      × (if all_exit stream p mode && activates mode
          then badge wid job.1 ≡ some (if saves wid es then pending else applied)
          else job.1 ≡ run t es)
      × (if p.dry_run then All IsSafe job.0 else Unit {0})
unfolding apply_job
apply_job-badge stream generation p mode t es ms wid w r key snap found on latest =
    let (ok, shown) = badge-mark_all t es ms wid w r key snap found on latest in
    let safe =
      IsSafe-if p.dry_run (rebuild stream generation p mode).0
        (rebuild-dry stream generation p mode) in
    rw (← is_done-rebuild stream generation p mode, ← not-is_build mode)
      (elim (Bool-cases (is_done (rebuild stream generation p mode).1 && not (is_build mode))) [
        | inl go ↦ rw go (ok ∙ sym (ground arith), shown, safe)
        | inr stop ↦ rw stop (refl, refl, safe)
      ])
