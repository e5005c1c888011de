-- ===== src/Server/Secrets.antt =====
-- internal/server/handlers_secrets.go, with WriteSecret and PruneSecrets of internal/nix/secrets.go: the
-- requests that change a secret. The registry of workload types is a parameter, and so is what encrypts.
pub mod Form
pub mod Index
pub mod Requests
pub mod Whole
pub mod Kept
pub mod Pruned
pub mod Stamps
pub mod Badges
pub mod Dialog
pub mod Delivered
pub mod Edited
use nixbox.Prelude.{
  Bool, List, Option, Text, [], false, if◌then◌else◌, none, some, text_eq, true, ℕ, ◌||◌, ◌∷◌,
}
use nixbox.Nix.Names.{validate_name}
use nixbox.Nix.Ports.{trim_space}
use nixbox.Handlers.{
  Answer, refused, fault, redirect, bad_request, not_found, put_file, replace_crlf,
}
use nixbox.Store.Workloads.{Workload, find_id, find_name}
use nixbox.Store.Secrets.{
  remove_secret_mount, add_secret_mount, delete_secret, create_secret, update_secret, find_secret,
  Secret,
}
use nixbox.Server.Secrets.Index.{index_secrets, IndexSecret}
use nixbox.Server.Secrets.Form.{
  checked, supports_of, workload_type, unchecked, Posted, parse_secret_form, supports, MountType,
  Checked, SecretForm,
}

-- The workloads, the secrets, the texts of state/secrets/<name>.age, and the secrets section of the
-- index.nix that is on disk.
pub record Registry : Type 0 where
  pub workloads : List Workload
  pub secrets : List Secret
  pub ciphertexts : List (Text × Text)
  pub index : List IndexSecret

-- What a request meets: the clock, LoadRecipient with Encrypt, and whether the file or the table cannot
-- be written.
pub record Meets : Type 0 where
  pub now : ℕ
  pub encrypt : Text → Option Text
  pub write_fails : Bool
  pub store_fails : Bool

-- encryptSecret: WriteSecret of what Encrypt makes, or `none` for an error.
abbrev pub sealed : Option Text → Text → Meets → List (Text × Text) → Option (List (Text × Text))
sealed none name m files = none
sealed (some ciphertext) name m files = elim (validate_name name) [
  | some _ ↦ none
  | none ↦ if m.write_fails then none else some (put_file name ciphertext files)
]

unfoldable pub encrypt_secret :
    (name value : Text) → Meets → List (Text × Text) → Option (List (Text × Text))
encrypt_secret name value m files = sealed (m.encrypt value) name m files

abbrev pub stored : Registry → Option (List Secret) → Registry × Answer
stored g none = (g, fault)
stored g (some ss) = (record g { secrets = ss }, redirect)

-- What follows encryptSecret in the creation and in the save of a secret.
abbrev pub create_sealed :
    Option (List (Text × Text))
    → (name : Text) → SecretForm
    → List ℕ
    → Meets
    → Registry
    → Registry × Answer
create_sealed none name f ids m g = (g, refused)
create_sealed (some files) name f ids m g =
    let written = record g { ciphertexts = files } in
    if m.store_fails
    then (written, fault)
    else stored written (create_secret m.now name f.owner f.group f.mode ids g.workloads g.secrets)

abbrev pub update_sealed :
    Option (List (Text × Text)) → SecretForm → Secret → Meets → Registry → Registry × Answer
update_sealed none f s m g = (g, refused)
update_sealed (some files) f s m g =
    let written = record g { ciphertexts = files } in
    if m.store_fails
    then (written, fault)
    else stored written
        (update_secret m.now s.id f.owner f.group f.mode f.mounts g.workloads g.secrets)

-- From SecretByName on.
abbrev pub create_absent :
    Option Secret → (name : Text) → SecretForm → List ℕ → Meets → Registry → Registry × Answer
create_absent (some s) name f ids m g = (g, refused)
create_absent none name f ids m g =
    create_sealed (encrypt_secret name f.value m g.ciphertexts) name f ids m g

-- From the check of the form on; the mounts are those of the form, or the page's workload.
abbrev pub create_checked :
    Checked → (name : Text) → (SecretForm → List ℕ) → Meets → Registry → Registry × Answer
create_checked (unchecked e) name ids m g = (g, refused)
create_checked (checked f) name ids m g =
    if text_eq f.value []
    then (g, refused)
    else create_absent (find_secret name g.secrets) name f (ids f) m g

abbrev pub create_named :
    Text → Checked → (SecretForm → List ℕ) → Meets → Registry → Registry × Answer
create_named name f ids m g = elim (validate_name name) [
  | some _ ↦ (g, refused)
  | none ↦ create_checked f name ids m g
]

-- lookupSecret, with what a handler does then.
abbrev pub looked_up : Option Secret → (Secret → Registry × Answer) → Registry → Registry × Answer
looked_up none go g = (g, not_found)
looked_up (some s) go g = go s

unfoldable pub lookup_secret : Text → (Secret → Registry × Answer) → Registry → Registry × Answer
unfolding find_secret
lookup_secret name go g = elim (validate_name name) [
  | some _ ↦ (g, bad_request)
  | none ↦ looked_up (find_secret name g.secrets) go g
]

abbrev pub save_checked : Checked → Secret → Meets → Registry → Registry × Answer
save_checked (unchecked e) s m g = (g, refused)
save_checked (checked f) s m g =
    if text_eq f.value []
    then update_sealed (some g.ciphertexts) f s m g
    else update_sealed (encrypt_secret s.name f.value m g.ciphertexts) f s m g

unfoldable pub handle_secret_delete : Text → Meets → Registry → Registry × Answer
unfolding lookup_secret delete_secret
handle_secret_delete name m g =
    lookup_secret name
      (λ s.
        if m.store_fails
        then (g, fault)
        else (record g { secrets = delete_secret s.id g.secrets }, redirect))
      g

-- setWorkloadSecretMount, from SecretByName on.
abbrev pub change_mount : Bool → ℕ → Workload → Secret → List Secret → List Secret
change_mount true now w s ss = add_secret_mount now s.id w.id ss
change_mount false now w s ss = remove_secret_mount now s.id w.id ss

abbrev pub mount_found : Option Secret → Bool → Workload → Meets → Registry → Registry × Answer
mount_found none attach w m g = (g, not_found)
mount_found (some s) attach w m g =
    if m.store_fails
    then (g, fault)
    else (record g { secrets = change_mount attach m.now w s g.secrets }, redirect)

abbrev pub mount_named : Text → Bool → Workload → Meets → Registry → Registry × Answer
mount_named name attach w m g = elim (validate_name name) [
  | some _ ↦ (g, refused)
  | none ↦ mount_found (find_secret name g.secrets) attach w m g
]

module _ (types : List MountType) where
  unfoldable pub handle_secret_create : Posted → Meets → Registry → Registry × Answer
  unfolding encrypt_secret create_secret find_secret parse_secret_form
  handle_secret_create p m g =
      create_named (trim_space p.name) (parse_secret_form types g.workloads p)
        (λ (f : SecretForm). f.mounts) m g

  unfoldable pub handle_secret_save : Text → Posted → Meets → Registry → Registry × Answer
  unfolding lookup_secret encrypt_secret update_secret parse_secret_form
  handle_secret_save name p m g =
      lookup_secret name (λ s. save_checked (parse_secret_form types g.workloads p) s m g) g

  -- secretsWorkload, with what a handler does then.
  abbrev pub supporting :
      Option Workload → (Workload → Registry × Answer) → Registry → Registry × Answer
  unfolding workload_type
  supporting none go g = (g, not_found)
  supporting (some w) go g =
      if supports_of (workload_type types w.typ) then go w else (g, not_found)

  unfoldable pub secrets_workload :
      Text → (Workload → Registry × Answer) → Registry → Registry × Answer
  unfolding find_name supporting
  secrets_workload name go g = elim (validate_name name) [
    | some _ ↦ (g, bad_request)
    | none ↦ supporting (find_name name g.workloads) go g
  ]

  unfoldable pub handle_workload_secret_create :
      (workload : Text) → Posted → Meets → Registry → Registry × Answer
  unfolding secrets_workload encrypt_secret create_secret find_secret parse_secret_form
  handle_workload_secret_create workload p m g =
      secrets_workload workload
        (λ w.
          create_named (trim_space p.name) (parse_secret_form types g.workloads p) (λ f. w.id ∷ [])
            m g)
        g

  unfoldable pub set_workload_secret_mount :
      (workload secret : Text) → Bool → Meets → Registry → Registry × Answer
  unfolding secrets_workload add_secret_mount remove_secret_mount find_secret
  set_workload_secret_mount workload secret attach m g =
      secrets_workload workload (λ w. mount_named secret attach w m g) g

-- PruneSecrets: os.Remove of each file that no row of the snapshot names, one after another; an
-- error ends the loop. The other files and folders are left out.
abbrev pub keeps : Text → List Secret → Bool
keeps name [] = false
keeps name (s ∷ ss) = text_eq s.name name || keeps name ss

unfoldable pub prune_secrets :
    (removes : Text → Bool) → List Secret → List (Text × Text) → List (Text × Text) × Bool
prune_secrets removes ss [] = ([], true)
prune_secrets removes ss ((name, text) ∷ fs) =
    let (rest, ok) = prune_secrets removes ss fs in
    if keeps name ss
    then ((name, text) ∷ rest, ok)
    else if removes name
    then (rest, ok)
    else ((name, text) ∷ fs, false)

-- What of startApply's calls before the job fails: nothing, regenerateIndex, or a later one before
-- PruneSecrets.
pub data Stop : Type 0 where
  nowhere at_index after_index : Stop

-- startApply up to the job, and whether the job is started.
unfoldable pub start_apply :
    List MountType → Stop → (removes : Text → Bool) → Registry → Registry × Bool
unfolding index_secrets prune_secrets
start_apply types at_index removes g = (g, false)
start_apply types after_index removes g =
    (record g { index = index_secrets types g.workloads g.secrets }, false)
start_apply types nowhere removes g =
    let (files, ok) = prune_secrets removes g.secrets g.ciphertexts in
    (record g { index = index_secrets types g.workloads g.secrets; ciphertexts = files }, ok)
