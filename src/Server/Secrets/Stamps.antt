-- ===== src/Server/Secrets/Stamps.antt =====
-- The badge of a secret: the times of internal/store/secrets.go, and the marks at the end of startApply's
-- job in internal/server/handlers_system.go.
use nixbox.Server.Secrets.Whole.{delete-All}
use nixbox.Store.Workloads.{Workload}
use nixbox.Prelude.{
  All, Bool-cases, List, Option, Option-cases, Text, [], inl, inr, map, map-All, none, some, ℕ,
  ◌==◌, ◌∷◌, ◌≤◌,
}
use nixbox.Store.Secrets.{
  delete_secret, forget_workload, mark_secret_applied, touch_secret, has_mount, find_secret,
  replace_mounts, remove_secret_mount, create_secret, add_secret_mount, mount_row, update_secret,
  on_id, unmount_row, Secret,
}

-- The calls of the store that change secrets, at the time they read.
pub data Edit : Type 0 where
  create : ℕ → (name owner group mode : Text) → List ℕ → List Workload → Edit
  update : ℕ → ℕ → (owner group mode : Text) → List ℕ → List Workload → Edit
  add remove : ℕ → ℕ → ℕ → Edit
  touch mark : ℕ → ℕ → Edit
  delete forget : ℕ → Edit

abbrev pub or_keep : List Secret → Option (List Secret) → List Secret
or_keep ss none = ss
or_keep ss (some us) = us

unfoldable pub apply_edit : List Secret → Edit → List Secret
unfolding create_secret update_secret add_secret_mount remove_secret_mount touch_secret
    mark_secret_applied delete_secret forget_workload
apply_edit ss (create now name owner group mode ids ws) =
    or_keep ss (create_secret now name owner group mode ids ws ss)
apply_edit ss (update now id owner group mode ids ws) =
    or_keep ss (update_secret now id owner group mode ids ws ss)
apply_edit ss (add now id wid) = add_secret_mount now id wid ss
apply_edit ss (remove now id wid) = remove_secret_mount now id wid ss
apply_edit ss (touch now id) = touch_secret now id ss
apply_edit ss (mark now id) = mark_secret_applied now id ss
apply_edit ss (delete id) = delete_secret id ss
apply_edit ss (forget wid) = forget_workload wid ss

unfoldable pub apply_edits : List Secret → List Edit → List Secret
unfolding apply_edit
apply_edits ss [] = ss
apply_edits ss (e ∷ es) = apply_edits (apply_edit ss e) es

-- The time of a call is at most this one.
abbrev pub IsBefore : ℕ → Edit → Type 0
IsBefore t (create now name owner group mode ids ws) = now ≤ t
IsBefore t (update now id owner group mode ids ws) = now ≤ t
IsBefore t (add now id wid) = now ≤ t
IsBefore t (remove now id wid) = now ≤ t
IsBefore t (touch now id) = now ≤ t
IsBefore t (mark now id) = now ≤ t
IsBefore t (delete id) = Unit
IsBefore t (forget wid) = Unit

abbrev pub AtMost : ℕ → Option ℕ → Type 0
AtMost t none = Unit
AtMost t (some a) = a ≤ t

-- No stamp of the secret is later.
abbrev pub IsStamped : ℕ → Secret → Type 0
IsStamped t s = (s.updated_at ≤ t) × AtMost t s.applied_at

on_id-IsStamped :
    (t : ℕ) (f : Secret → Secret) (id : ℕ) (ss : List Secret)
    → ((s : Secret) → IsStamped t s → IsStamped t (f s))
    → All (IsStamped t) ss
    → All (IsStamped t) (map (on_id f id) ss)
on_id-IsStamped t f id ss keep h = map-All (IsStamped t) (IsStamped t) (on_id f id) ss go h
  where
    go : (s : Secret) → IsStamped t s → IsStamped t (on_id f id s)
    go s h = elim (Bool-cases (s.id == id)) [ inl e ↦ rw e (keep s h) | inr n ↦ rw n h ]

mount_row-IsStamped :
    (t now wid : ℕ) (s : Secret) → now ≤ t → IsStamped t s → IsStamped t (mount_row now wid s)
unfolding mount_row
mount_row-IsStamped t now wid s le h = elim (Bool-cases (has_mount wid s.workload_ids)) [
  | inl e ↦ rw e h
  | inr n ↦ rw n (le, h.1)
]

unmount_row-IsStamped :
    (t now wid : ℕ) (s : Secret) → now ≤ t → IsStamped t s → IsStamped t (unmount_row now wid s)
unfolding unmount_row
unmount_row-IsStamped t now wid s le h = elim (Bool-cases (has_mount wid s.workload_ids)) [
  | inl e ↦ rw e (le, h.1)
  | inr n ↦ rw n h
]

create-IsStamped :
    (t now : ℕ) (name owner group mode : Text) (ids : List ℕ) (ws : List Workload)
    (ss : List Secret)
    → now ≤ t
    → All (IsStamped t) ss
    → All (IsStamped t) (or_keep ss (create_secret now name owner group mode ids ws ss))
unfolding create_secret
create-IsStamped t now name owner group mode ids ws ss le h =
    elim (Option-cases (find_secret name ss)) [
      | inl absent ↦ elim (Option-cases (replace_mounts ws ids)) [
        | inl bad ↦ rw (absent, bad) h
        | inr (mounts, good) ↦ rw (absent, good) ((le, tt), h)
      ]
      | inr (s, taken) ↦ rw taken h
    ]

update-IsStamped :
    (t now id : ℕ) (owner group mode : Text) (ids : List ℕ) (ws : List Workload) (ss : List Secret)
    → now ≤ t
    → All (IsStamped t) ss
    → All (IsStamped t) (or_keep ss (update_secret now id owner group mode ids ws ss))
unfolding update_secret
update-IsStamped t now id owner group mode ids ws ss le h =
    elim (Option-cases (replace_mounts ws ids)) [
      | inl bad ↦ rw bad h
      | inr (mounts, good) ↦ rw good (on_id-IsStamped t _ id ss (λ s h. (le, h.1)) h)
    ]

apply_edit-IsStamped :
    (t : ℕ) (ss : List Secret) (e : Edit)
    → IsBefore t e
    → All (IsStamped t) ss
    → All (IsStamped t) (apply_edit ss e)
unfolding apply_edit add_secret_mount remove_secret_mount touch_secret mark_secret_applied
    forget_workload
apply_edit-IsStamped t ss (create now name owner group mode ids ws) le h =
    create-IsStamped t now name owner group mode ids ws ss le h
apply_edit-IsStamped t ss (update now id owner group mode ids ws) le h =
    update-IsStamped t now id owner group mode ids ws ss le h
apply_edit-IsStamped t ss (add now id wid) le h =
    on_id-IsStamped t (mount_row now wid) id ss (λ s. mount_row-IsStamped t now wid s le) h
apply_edit-IsStamped t ss (remove now id wid) le h =
    on_id-IsStamped t (unmount_row now wid) id ss (λ s. unmount_row-IsStamped t now wid s le) h
apply_edit-IsStamped t ss (touch now id) le h = on_id-IsStamped t _ id ss (λ s h. (le, h.1)) h
apply_edit-IsStamped t ss (mark now id) le h = on_id-IsStamped t _ id ss (λ s h. (h.0, le)) h
apply_edit-IsStamped t ss (delete id) le h = delete-All (IsStamped t) id ss h
apply_edit-IsStamped t ss (forget wid) le h = map-All (IsStamped t) (IsStamped t) _ ss (λ s h. h) h

pub apply_edits-IsStamped :
    (t : ℕ) (ss : List Secret) (es : List Edit)
    → All (IsBefore t) es
    → All (IsStamped t) ss
    → All (IsStamped t) (apply_edits ss es)
unfolding apply_edits
apply_edits-IsStamped t ss [] before h = h
apply_edits-IsStamped t ss (e ∷ es) (b, before) h =
    apply_edits-IsStamped t (apply_edit ss e) es before (apply_edit-IsStamped t ss e b h)
