-- ===== src/Server/Secrets/Kept.antt =====
-- The requests of internal/server/handlers_secrets.go: every secret they leave has its file.
use nixbox.Nix.Names.{validate_name}
use nixbox.Store.Workloads.{find_name, Workload}
use nixbox.Handlers.{put_file, Answer}
use nixbox.Server.Secrets.Form.{SecretForm, workload_type, supports_of, MountType, Checked}
use nixbox.Store.Secrets.{
  update_secret, unmount_row, mount_row, find_secret, remove_secret_mount, Secret, add_secret_mount,
}
use nixbox.Prelude.{
  All, Bool, Bool-cases, List, Option, Option-cases, Text, [], arith, false, inl, inr, none, refl,
  some, text_eq, true, ℕ, ◌≡◌, ◌⊎◌,
}
use nixbox.Server.Secrets.{
  checked, SecretForm, unchecked, Secret, change_mount, update_sealed, mount_found, mount_named,
  save_checked, Meets, secrets_workload, lookup_secret, Registry,
}
use nixbox.Server.Secrets.Whole.{
  put-IsSealed, update_secret-HasFile, on_id-HasFile, encrypt_secret-cases, stored-IsSealed,
  HasFile, IsSealed,
}

update_sealed-IsSealed :
    (o : Option (List (Text × Text))) (f : SecretForm) (s : Secret) (m : Meets) (g : Registry)
    → IsSealed g
    → ((o ≡ none)
        ⊎ ((files : List (Text × Text)) × (o ≡ some files)
            × IsSealed (record g { ciphertexts = files })))
    → IsSealed (update_sealed o f s m g).0
update_sealed-IsSealed o f s m g whole (inl bad) = rw bad whole
update_sealed-IsSealed o f s m g whole (inr (files, good, kept)) = elim (Bool-cases m.store_fails) [
  | inl t ↦ rw (good, update_sealed) (rw t kept)
  | inr n ↦
      rw (good, update_sealed)
        (rw n (
          stored-IsSealed (record g { ciphertexts = files })
            (update_secret m.now s.id f.owner f.group f.mode f.mounts g.workloads g.secrets) kept
            (update_secret-HasFile m.now s.id f.owner f.group f.mode f.mounts g.workloads g.secrets
              files kept.0)))
]

pub save_checked-IsSealed :
    (form : Checked) (s : Secret) (m : Meets) (g : Registry)
    → IsSealed g
    → IsSealed (save_checked form s m g).0
save_checked-IsSealed (unchecked e) s m g whole = whole
save_checked-IsSealed (checked f) s m g whole = elim (Bool-cases (text_eq f.value [])) [
  | inl t ↦
      rw t (
        update_sealed-IsSealed (some g.ciphertexts) f s m g whole
          (inr (g.ciphertexts, refl, whole)))
  | inr n ↦ rw n (
      update_sealed-IsSealed _ f s m g whole
        (elim (encrypt_secret-cases s.name f.value m g.ciphertexts) [
          | inl bad ↦ inl bad
          | inr (c, good) ↦
              inr (put_file s.name c g.ciphertexts, good, put-IsSealed s.name c g whole)
        ]))
]

pub lookup_secret-IsSealed :
    (name : Text) (go : Secret → Registry × Answer) (g : Registry)
    → IsSealed g
    → ((s : Secret) → IsSealed (go s).0)
    → IsSealed (lookup_secret name go g).0
unfolding lookup_secret
lookup_secret-IsSealed name go g whole h = elim (Option-cases (validate_name name)) [
  | inr (e, bad) ↦ rw (bad, lookup_secret) whole
  | inl ok ↦ elim (Option-cases (find_secret name g.secrets)) [
    | inl absent ↦ rw (ok, lookup_secret) (rw absent whole)
    | inr (s, there) ↦ rw (ok, lookup_secret) (rw there (h s))
  ]
]

pub secrets_workload-IsSealed :
    (types : List MountType) (name : Text) (go : Workload → Registry × Answer) (g : Registry)
    → IsSealed g
    → ((w : Workload) → IsSealed (go w).0)
    → IsSealed (secrets_workload types name go g).0
unfolding secrets_workload
secrets_workload-IsSealed types name go g whole h = elim (Option-cases (validate_name name)) [
  | inr (e, bad) ↦ rw (bad, secrets_workload) whole
  | inl ok ↦ elim (Option-cases (find_name name g.workloads)) [
    | inl absent ↦ rw (ok, secrets_workload) (rw absent whole)
    | inr (w, there) ↦ elim (Bool-cases (supports_of (workload_type types w.typ))) [
      | inl t ↦ rw (ok, secrets_workload) (rw (there, t) (h w))
      | inr f ↦ rw (ok, secrets_workload) (rw (there, f) whole)
    ]
  ]
]

mount_row-name : (now wid : ℕ) (s : Secret) → (mount_row now wid s).name ≡ s.name
unfolding mount_row
mount_row-name now wid s = ground arith

unmount_row-name : (now wid : ℕ) (s : Secret) → (unmount_row now wid s).name ≡ s.name
unfolding unmount_row
unmount_row-name now wid s = ground arith

pub mount_named-IsSealed :
    (name : Text) (attach : Bool) (w : Workload) (m : Meets) (g : Registry)
    → IsSealed g
    → IsSealed (mount_named name attach w m g).0
unfolding add_secret_mount remove_secret_mount
mount_named-IsSealed name attach w m g whole = elim (Option-cases (validate_name name)) [
  | inr (e, bad) ↦ rw (bad, mount_named) whole
  | inl ok ↦ elim (Option-cases (find_secret name g.secrets)) [
    | inl absent ↦ rw (ok, mount_named) (rw absent whole)
    | inr (s, there) ↦ rw (ok, mount_named) (rw there (found_whole s attach))
  ]
]
  where
    change_whole :
        (s : Secret) (attach : Bool)
        → All (HasFile g.ciphertexts) (change_mount attach m.now w s g.secrets)
    change_whole s true =
        on_id-HasFile (mount_row m.now w.id) s.id g.ciphertexts g.secrets
          (mount_row-name m.now w.id) whole.0
    change_whole s false =
        on_id-HasFile (unmount_row m.now w.id) s.id g.ciphertexts g.secrets
          (unmount_row-name m.now w.id) whole.0

    found_whole : (s : Secret) (attach : Bool) → IsSealed (mount_found (some s) attach w m g).0
    found_whole s attach = elim (Bool-cases m.store_fails) [
      | inl t ↦ rw t whole
      | inr f ↦ rw f (change_whole s attach, whole.1)
    ]
