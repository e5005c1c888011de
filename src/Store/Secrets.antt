-- ===== src/Store/Secrets.antt =====
-- internal/store/secrets.go: the secrets and secret_mounts tables, as written through the clock that a
-- call reads. Faults of the database itself are left out, and so is the order of Secrets().
use nixbox.Prelude.{
  Bool, List, Option, Text, [], codes, false, if◌then◌else◌, leb, ltb, map, none, not, some, suc,
  text_eq, ℕ, ◌==◌, ◌||◌, ◌∷◌,
}
use nixbox.Store.Workloads.{Workload, find_id}

pub record Secret : Type 0 where
  pub id : ℕ
  pub name : Text
  pub owner : Text
  pub group : Text
  pub mode : Text
  pub workload_ids : List ℕ
  pub created_at : ℕ
  pub updated_at : ℕ
  pub applied_at : Option ℕ

-- The badge, of a secret and of a flake input: whether applied_at is not before updated_at.
unfoldable pub is_applied : Option ℕ → ℕ → Bool
is_applied none updated = false
is_applied (some at_) updated = not (ltb at_ updated)

-- Secret.Status
unfoldable pub secret_status : Secret → Text
unfolding is_applied
secret_status s = if is_applied s.applied_at s.updated_at then codes "applied" else codes "pending"

-- MountedInto
unfoldable pub has_mount : ℕ → List ℕ → Bool
has_mount wid [] = false
has_mount wid (i ∷ is) = i == wid || has_mount wid is

-- A new mount in the order of workload_id, by which loadMounts reads them.
unfoldable pub insert_mount : ℕ → List ℕ → List ℕ
insert_mount wid [] = wid ∷ []
insert_mount wid (i ∷ is) =
    let rest = insert_mount wid is in if ltb i wid then i ∷ rest else wid ∷ i ∷ is

unfoldable pub drop_mount : ℕ → List ℕ → List ℕ
drop_mount wid [] = []
drop_mount wid (i ∷ is) = let rest = drop_mount wid is in if i == wid then rest else i ∷ rest

abbrev pub add_new : ℕ → Option Workload → Option (List ℕ) → Option (List ℕ)
add_new wid none is = none
add_new wid (some w) none = none
add_new wid (some w) (some is) = if has_mount wid is then none else some (insert_mount wid is)

-- replaceMounts: fails on a workload that is not there, or is named twice, by the table's keys.
unfoldable pub replace_mounts : List Workload → List ℕ → Option (List ℕ)
unfolding find_id has_mount insert_mount
replace_mounts ws [] = some []
replace_mounts ws (i ∷ is) = add_new i (find_id i ws) (replace_mounts ws is)

unfoldable pub find_secret : Text → List Secret → Option Secret
find_secret name [] = none
find_secret name (s ∷ ss) =
    let rest = find_secret name ss in if text_eq s.name name then some s else rest

unfoldable pub secret_by_id : ℕ → List Secret → Option Secret
secret_by_id id [] = none
secret_by_id id (s ∷ ss) = let rest = secret_by_id id ss in if s.id == id then some s else rest

-- The id of a new row: one more than the largest.
unfoldable pub max_secret : List Secret → ℕ
max_secret [] = 0
max_secret (s ∷ ss) = let rest = max_secret ss in if leb rest s.id then s.id else rest

abbrev pub new_secret : ℕ → (name owner group mode : Text) → List ℕ → List Secret → Secret
new_secret now name owner group mode mounts ss = record {
  id = suc (max_secret ss);
  name = name;
  owner = owner;
  group = group;
  mode = mode;
  workload_ids = mounts;
  created_at = now;
  updated_at = now;
  applied_at = none;
}

abbrev pub create_row :
    ℕ
    → (name owner group mode : Text) → Option Secret
    → Option (List ℕ)
    → List Secret
    → Option (List Secret)
create_row now name owner group mode (some s) mounts ss = none
create_row now name owner group mode none none ss = none
create_row now name owner group mode none (some mounts) ss =
    some (new_secret now name owner group mode mounts ss ∷ ss)

-- CreateSecret, which fails as a whole on a name that is taken.
unfoldable pub create_secret :
    ℕ → (name owner group mode : Text) → List ℕ → List Workload → List Secret → Option (List Secret)
unfolding find_secret replace_mounts
create_secret now name owner group mode ids ws ss =
    create_row now name owner group mode (find_secret name ss) (replace_mounts ws ids) ss

-- UPDATE ... WHERE id = ?
abbrev pub on_id : (Secret → Secret) → ℕ → Secret → Secret
on_id f id s = if s.id == id then f s else s

unfoldable pub touch_secret : ℕ → ℕ → List Secret → List Secret
touch_secret now id ss = map (on_id (λ s. record s { updated_at = now }) id) ss

abbrev pub update_rows :
    ℕ → ℕ → (owner group mode : Text) → Option (List ℕ) → List Secret → Option (List Secret)
update_rows now id owner group mode none ss = none
update_rows now id owner group mode (some mounts) ss = some (
    map
      (on_id
        (λ s. record s {
          owner = owner;
          group = group;
          mode = mode;
          workload_ids = mounts;
          updated_at = now;
        })
        id)
      ss)

-- UpdateSecret, of a secret that is there.
unfoldable pub update_secret :
    ℕ → ℕ → (owner group mode : Text) → List ℕ → List Workload → List Secret → Option (List Secret)
unfolding replace_mounts
update_secret now id owner group mode ids ws ss =
    update_rows now id owner group mode (replace_mounts ws ids) ss

-- INSERT OR IGNORE, and touchOnChange if it was a change.
unfoldable pub mount_row : ℕ → ℕ → Secret → Secret
unfolding has_mount insert_mount
mount_row now wid s =
    if has_mount wid s.workload_ids
    then s
    else record s { workload_ids = insert_mount wid s.workload_ids; updated_at = now }

-- AddSecretMount, of a workload and a secret that are there.
unfoldable pub add_secret_mount : ℕ → ℕ → ℕ → List Secret → List Secret
unfolding mount_row
add_secret_mount now id wid ss = map (on_id (mount_row now wid) id) ss

unfoldable pub unmount_row : ℕ → ℕ → Secret → Secret
unfolding has_mount drop_mount
unmount_row now wid s =
    if has_mount wid s.workload_ids
    then record s { workload_ids = drop_mount wid s.workload_ids; updated_at = now }
    else s

-- RemoveSecretMount
unfoldable pub remove_secret_mount : ℕ → ℕ → ℕ → List Secret → List Secret
unfolding unmount_row
remove_secret_mount now id wid ss = map (on_id (unmount_row now wid) id) ss

-- MarkSecretApplied
unfoldable pub mark_secret_applied : ℕ → ℕ → List Secret → List Secret
mark_secret_applied now id ss = map (on_id (λ s. record s { applied_at = some now }) id) ss

-- DeleteSecret
unfoldable pub delete_secret : ℕ → List Secret → List Secret
delete_secret id [] = []
delete_secret id (s ∷ ss) = let rest = delete_secret id ss in if s.id == id then rest else s ∷ rest

-- The cascade of a workload's deletion.
unfoldable pub forget_workload : ℕ → List Secret → List Secret
unfolding drop_mount
forget_workload wid ss =
    map (λ (s : Secret). record s { workload_ids = drop_mount wid s.workload_ids }) ss
