-- ===== src/Server/Secrets/Requests.antt =====
-- The requests of internal/server/handlers_secrets.go in any order, with what startApply of
-- internal/server/handlers_system.go does to secrets and the deletion of workloads.
use nixbox.Store.Workloads.{Workload}
use nixbox.Server.Secrets.Form.{MountType, Posted}
use nixbox.Store.Secrets.{Secret, mark_secret_applied, forget_workload}
use nixbox.Prelude.{Bool, List, Text, [], ℕ, ◌∷◌}
use nixbox.Server.Secrets.{
  Workload, Posted, MountType, Stop, start_apply, set_workload_secret_mount,
  handle_workload_secret_create, handle_secret_delete, handle_secret_save, Meets,
  handle_secret_create, Registry,
}

-- A request, startApply up to its job, the marks of a rebuild that ends well, the deletion of a
-- workload, or another change of the workloads.
pub data Request : Type 0 where
  create : Posted → Meets → Request
  save : Text → Posted → Meets → Request
  delete : Text → Meets → Request
  create_for : (workload : Text) → Posted → Meets → Request
  mount : (workload secret : Text) → Bool → Meets → Request
  apply : Stop → (removes : Text → Bool) → Request
  mark : ℕ → List ℕ → Request
  destroy : ℕ → List Workload → Request
  change : List Workload → Request

-- The loop over appliedSecrets.
unfoldable pub mark_secrets : ℕ → List ℕ → List Secret → List Secret
unfolding mark_secret_applied
mark_secrets now [] ss = ss
mark_secrets now (id ∷ ids) ss = mark_secrets now ids (mark_secret_applied now id ss)

module _ (types : List MountType) where
  unfoldable pub step : Registry → Request → Registry
  unfolding handle_secret_create handle_secret_save handle_secret_delete
      handle_workload_secret_create set_workload_secret_mount start_apply mark_secrets
      forget_workload
  step g (create p m) = (handle_secret_create types p m g).0
  step g (save name p m) = (handle_secret_save types name p m g).0
  step g (delete name m) = (handle_secret_delete name m g).0
  step g (create_for workload p m) = (handle_workload_secret_create types workload p m g).0
  step g (mount workload secret attach m) =
      (set_workload_secret_mount types workload secret attach m g).0
  step g (apply stop removes) = (start_apply types stop removes g).0
  step g (mark now ids) = record g { secrets = mark_secrets now ids g.secrets }
  step g (destroy id ws) = record g { workloads = ws; secrets = forget_workload id g.secrets }
  step g (change ws) = record g { workloads = ws }

  unfoldable pub run : Registry → List Request → Registry
  unfolding step
  run g [] = g
  run g (r ∷ rs) = run (step g r) rs
