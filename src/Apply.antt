-- ===== src/Apply.antt =====
-- startApply of internal/server/handlers_system.go with the states that the workload page shows, for
-- workloads; Server.Secrets and Server.Flakes have what it does to secrets and flake inputs. What the
-- rebuild does is Nix.Rebuild.
pub mod Marks
pub mod Badge
use nixbox.Prelude.{
  Bool, List, Option, [], false, if◌then◌else◌, none, not, some, true, ℕ, ◌&&◌, ◌==◌, ◌∷◌,
}
use nixbox.Nix.Rebuild.{
  Mode, switch, test, build, Command, Pipeline, Outcome, broken, exited, done, is_build, rebuild,
}
use nixbox.Store.Workloads.{
  Workload, Revision, Tables, find_id, newest, workload_by_id, latest_revision, mark_applied,
}

-- The snapshot: the latest revision of each enabled workload; `none` if one has no revision.
abbrev pub with_latest : ℕ → Option Revision → Option (List (ℕ × ℕ)) → Option (List (ℕ × ℕ))
with_latest wid none ms = none
with_latest wid (some r) none = none
with_latest wid (some r) (some ms) = some ((wid, r.id) ∷ ms)

unfoldable pub snapshot_of : List Workload → List Revision → Option (List (ℕ × ℕ))
unfolding newest
snapshot_of [] rs = some []
snapshot_of (w ∷ ws) rs =
    let rest = snapshot_of ws rs in
    if not w.enabled then rest else with_latest w.id (newest w.id rs) rest

unfoldable pub snapshot : Tables → Option (List (ℕ × ℕ))
unfolding snapshot_of
snapshot t = snapshot_of t.workloads t.revisions

-- The loop of the job over the snapshot, which stops at an error; the keys of the map differ, so that
-- its order is of no importance.
abbrev pub and_then : Option Tables → (Tables → Tables × Bool) → Tables → Tables × Bool
and_then none go t = (t, false)
and_then (some u) go t = go u

unfoldable pub mark_all : List (ℕ × ℕ) → Tables → Tables × Bool
unfolding mark_applied
mark_all [] t = (t, true)
mark_all ((wid, rid) ∷ ms) t = and_then (mark_applied wid rid t) (mark_all ms) t

-- err == nil && code == 0
abbrev pub is_done : Outcome → Bool
is_done broken = false
is_done (exited code) = false
is_done (done generation) = true

-- The job's function: the commands it runs, the tables that it leaves, as they are when the rebuild
-- ends, and whether it reports success.
module _ (stream : Command → Option ℕ) (generation : Option ℕ) where
  unfoldable pub apply_job : Pipeline → Mode → List (ℕ × ℕ) → Tables → List Command × Tables × Bool
  unfolding mark_all
  apply_job p mode marks t =
      let (commands, outcome) = rebuild stream generation p mode in
      if is_done outcome && not (is_build mode)
      then (let (u, ok) = mark_all marks t in (commands, u, ok))
      else (commands, t, is_done outcome)

-- data.State of the workload page.
pub data State : Type 0 where
  draft pending applied : State

abbrev pub compare_applied : Option ℕ → ℕ → State
compare_applied none latest = draft
compare_applied (some a) latest = if a == latest then applied else pending

abbrev pub state_of : Option Workload → Option Revision → Option State
state_of none l = none
state_of (some w) none = none
state_of (some w) (some l) = some (compare_applied w.applied_revision_id l.id)

unfoldable pub badge : ℕ → Tables → Option State
unfolding workload_by_id latest_revision
badge wid t = state_of (workload_by_id wid t) (latest_revision wid t)
