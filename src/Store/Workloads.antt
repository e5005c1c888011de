-- ===== src/Store/Workloads.antt =====
-- internal/store/store.go: the workloads and revisions tables. Times are left out, and faults of the
-- database itself are not modelled. A new row's id is one more than the largest of its table.
pub mod Rows
use nixbox.Prelude.{
  Bool, List, Option, Text, [], codes, false, if◌then◌else◌, leb, ltb, map, none, some, suc,
  text_eq, ℕ, ◌==◌, ◌||◌, ◌∷◌,
}

pub record Workload : Type 0 where
  pub id : ℕ
  pub name : Text
  pub display_name : Text
  pub typ : Text
  pub enabled : Bool
  pub applied_revision_id : Option ℕ

pub record Revision : Type 0 where
  pub id : ℕ
  pub workload_id : ℕ
  pub content : Text
  pub ports : Text
  pub note : Text

pub record Tables : Type 0 where
  pub workloads : List Workload
  pub revisions : List Revision

abbrev pub max_workload : List Workload → ℕ
max_workload [] = 0
max_workload (w ∷ ws) = let rest = max_workload ws in if leb rest w.id then w.id else rest

abbrev pub max_revision : List Revision → ℕ
max_revision [] = 0
max_revision (r ∷ rs) = let rest = max_revision rs in if leb rest r.id then r.id else rest

-- WHERE id = ?
unfoldable pub find_id : ℕ → List Workload → Option Workload
find_id id [] = none
find_id id (w ∷ ws) = let rest = find_id id ws in if w.id == id then some w else rest

-- WHERE name = ?
unfoldable pub find_name : Text → List Workload → Option Workload
find_name name [] = none
find_name name (w ∷ ws) =
    let rest = find_name name ws in if text_eq w.name name then some w else rest

unfoldable pub workload_by_id : ℕ → Tables → Option Workload
unfolding find_id
workload_by_id id t = find_id id t.workloads

unfoldable pub workload_by_name : Text → Tables → Option Workload
unfolding find_name
workload_by_name name t = find_name name t.workloads

-- ORDER BY id DESC LIMIT 1, of a row and what comes first of the others.
abbrev pub newer : Revision → Option Revision → Option Revision
newer r none = some r
newer r (some s) = if ltb s.id r.id then some r else some s

unfoldable pub newest : ℕ → List Revision → Option Revision
newest wid [] = none
newest wid (r ∷ rs) =
    let rest = newest wid rs in if r.workload_id == wid then newer r rest else rest

unfoldable pub latest_revision : ℕ → Tables → Option Revision
unfolding newest
latest_revision wid t = newest wid t.revisions

abbrev pub new_revision : ℕ → Text → Text → Text → List Revision → Revision
new_revision wid content ports note rs = record {
  id = suc (max_revision rs);
  workload_id = wid;
  content = content;
  ports = ports;
  note = note;
}

-- The transaction fails as a whole on a name that is taken.
unfoldable pub create_workload :
    (name display_name typ content ports : Text) → Tables → Option Tables
unfolding find_name
create_workload name display_name typ content ports t =
    let wid = suc (max_workload t.workloads) in
    elim (find_name name t.workloads) [
      | some _ ↦ none
      | none ↦ some (record {
        workloads =
            record {
              id = wid;
              name = name;
              display_name = display_name;
              typ = typ;
              enabled = false;
              applied_revision_id = none;
            }
            ∷ t.workloads;
        revisions = new_revision wid content ports (codes "created") t.revisions ∷ t.revisions;
      })
    ]

abbrev pub update_id : (Workload → Workload) → ℕ → Workload → Workload
update_id f id w = if w.id == id then f w else w

unfoldable pub set_workload_enabled : ℕ → Bool → Tables → Tables
set_workload_enabled id enabled t = record t {
  workloads = map (update_id (λ w. record w { enabled = enabled }) id) t.workloads;
}

unfoldable pub set_workload_display_name : ℕ → Text → Tables → Tables
set_workload_display_name id name t = record t {
  workloads = map (update_id (λ w. record w { display_name = name }) id) t.workloads;
}

-- The transaction fails if there is no such workload, by its foreign key.
unfoldable pub save_revision : ℕ → (content ports note : Text) → Tables → Option Tables
unfolding find_id
save_revision wid content ports note t = elim (find_id wid t.workloads) [
  | none ↦ none
  | some _ ↦
      some (record t { revisions = new_revision wid content ports note t.revisions ∷ t.revisions })
]

abbrev pub drop_workload : ℕ → List Workload → List Workload
drop_workload id [] = []
drop_workload id (w ∷ ws) = let rest = drop_workload id ws in if w.id == id then rest else w ∷ rest

abbrev pub drop_revisions : ℕ → List Revision → List Revision
drop_revisions wid [] = []
drop_revisions wid (r ∷ rs) =
    let rest = drop_revisions wid rs in if r.workload_id == wid then rest else r ∷ rest

-- DELETE with its cascade.
unfoldable pub delete_workload : ℕ → Tables → Tables
delete_workload id t = record {
  workloads = drop_workload id t.workloads;
  revisions = drop_revisions id t.revisions;
}

unfoldable pub has_revision : ℕ → List Revision → Bool
has_revision rid [] = false
has_revision rid (r ∷ rs) = r.id == rid || has_revision rid rs

-- Fails if the workload would refer to a revision that does not exist, by its foreign key.
unfoldable pub mark_applied : (wid rid : ℕ) → Tables → Option Tables
unfolding find_id has_revision
mark_applied wid rid t = elim (find_id wid t.workloads) [
  | none ↦ some t
  | some _ ↦
      if has_revision rid t.revisions
      then some (record t {
        workloads =
            map (update_id (λ w. record w { applied_revision_id = some rid }) wid) t.workloads;
      })
      else none
]

-- What the other requests do to the tables; a refused one changes nothing.
pub data Edit : Type 0 where
  create : (name display_name typ content ports : Text) → Edit
  enable : ℕ → Bool → Edit
  rename : ℕ → Text → Edit
  save : ℕ → (content ports note : Text) → Edit

abbrev pub or_else : Tables → Option Tables → Tables
or_else t none = t
or_else t (some u) = u

unfoldable pub step : Tables → Edit → Tables
unfolding create_workload set_workload_enabled set_workload_display_name save_revision
step t (create name display_name typ content ports) =
    or_else t (create_workload name display_name typ content ports t)
step t (enable id on) = set_workload_enabled id on t
step t (rename id name) = set_workload_display_name id name t
step t (save wid content ports note) = or_else t (save_revision wid content ports note t)

unfoldable pub run : Tables → List Edit → Tables
unfolding step
run t [] = t
run t (e ∷ es) = run (step t e) es
