-- ===== src/Handlers/Destroy.antt =====
-- The answer of handleWorkloadDestroy of internal/server/handlers_workload.go, before its job runs.
use mathlib.Core.Option
use nixbox.Prelude.{
  Bool, Bool-cases, List, Text, [], arith, false, if◌then◌else◌, inl, inr, map, none, not, refl,
  some, text_eq, true, ℕ, ◌==◌, ◌∙◌, ◌∷◌, ◌≡◌,
}
use nixbox.Nix.Names.{validate_name}
use nixbox.Store.Workloads.{Workload, find_name, update_id, set_workload_enabled}
use nixbox.Handlers.{
  Site, Reply, refused, conflict, started, lookup_workload, handle_workload_destroy,
}
use nixbox.Handlers.Keys.{Keeps, update_id-Keeps, find_name-name}

find_name-update :
    (f : Workload → Workload) (id : ℕ) (name : Text) (ws : List Workload)
    → Keeps f
    → find_name name (map (update_id f id) ws)
      ≡ Option.map (λ (w : Workload). update_id f id w) (find_name name ws)
unfolding find_name
find_name-update f id name [] keep = refl
find_name-update f id name (w ∷ ws) keep =
    let (_, same) = update_id-Keeps f id keep w in
    elim (Bool-cases (text_eq w.name name)) [
      | inl t ↦ rw (same, t) refl
      | inr g ↦ rw (same, g) (find_name-update f id name ws keep)
    ]

off-found :
    (name : Text) (s : Site) (w : Workload)
    → find_name name s.tables.workloads ≡ some w
    → find_name name (set_workload_enabled w.id false s.tables).workloads
      ≡ some (record w { enabled = false })
unfolding set_workload_enabled
off-found name s w found =
    let own : (w.id == w.id) ≡ true = ground arith in
    find_name-update (λ v. record v { enabled = false }) w.id name s.tables.workloads
      (λ v. (refl, refl))
    ∙ rw found (rw own refl)

-- A request to destroy a workload, with no fault: it is refused, and the workload left as it is, unless
-- the name is typed again. With the name, the workload is disabled, whether the answer is that the job has
-- started or that another one is running.
pub destroy-answer :
    (name confirm : Text) (busy : Bool) (r : Reply) (s : Site) (w : Workload)
    → validate_name name ≡ none
    → find_name name s.tables.workloads ≡ some w
    → r.store_fails ≡ false
    → r.write_fails ≡ false
    → let (s', answer) = handle_workload_destroy name confirm busy r s in
      (answer
        ≡ (if not (text_eq confirm name) then refused else if busy then conflict else started))
      × (find_name name s'.tables.workloads
          ≡ some (if text_eq confirm name then record w { enabled = false } else w))
unfolding handle_workload_destroy lookup_workload
destroy-answer name confirm busy r s w valid found stored wrote =
    let own = find_name-name name s.tables.workloads w found in
    let off = off-found name s w found in
    rw (valid, lookup_workload)
      (rw found (elim (Bool-cases (text_eq confirm name)) [
        | inr wrong ↦
            let wrong_too : text_eq confirm w.name ≡ false = rw own wrong in
            rw (wrong, wrong_too) (refl, found)
        | inl typed ↦
            let typed_too : text_eq confirm w.name ≡ true = rw own typed in
            rw (typed, typed_too)
              (rw stored (
                rw wrote
                  (elim (Bool-cases busy) [ inl t ↦ rw t (refl, off) | inr f ↦ rw f (refl, off) ])))
      ]))
