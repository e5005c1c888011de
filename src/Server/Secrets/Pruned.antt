-- ===== src/Server/Secrets/Pruned.antt =====
-- PruneSecrets of internal/nix/secrets.go after the requests of internal/server/handlers_secrets.go.
use nixbox.Store.Workloads.{Workload}
use nixbox.Server.Secrets.Index.{index_secret, index_secrets}
use nixbox.Nix.Ports.{trim_space}
use nixbox.Handlers.{find_file}
use nixbox.Server.Secrets.Form.{SecretForm, parse_secret_form, MountType}
use nixbox.Store.Secrets.{forget_workload, mark_secret_applied, Secret}
use nixbox.Prelude.{
  All, Bool, Bool-cases, List, Text, [], ap, arith, false, imp-All, inl, inr, map-All, none, refl,
  some, sym, text_eq, text_eq_self, text_eq_sound, true, ℕ, ◌↔◌, ◌∙◌, ◌∷◌, ◌≡◌, ◌≢◌,
}
use nixbox.Server.Secrets.{
  SecretForm, Secret, MountType, at_index, after_index, nowhere, Stop, nowhere, start_apply,
  set_workload_secret_mount, handle_workload_secret_create, handle_secret_delete,
  handle_secret_save, keeps, handle_secret_create, prune_secrets, Registry,
}
use nixbox.Server.Secrets.Requests.{
  apply, change, destroy, mark, mount, create_for, delete, save, create, run, step, mark_secrets,
  Request,
}
use nixbox.Server.Secrets.Whole.{
  IndexHasFile, map-HasFile, delete-All, create_named-IsSealed, create_named-IsSealed,
  on_id-HasFile, HasFile, IsSealed,
}
use nixbox.Server.Secrets.Kept.{
  mount_named-IsSealed, secrets_workload-IsSealed, lookup_secret-IsSealed, save_checked-IsSealed,
}

prune_secrets-kept :
    (removes : Text → Bool) (name : Text) (ss : List Secret) (fs : List (Text × Text))
    → keeps name ss ≡ true
    → find_file name (prune_secrets removes ss fs).0 ≡ find_file name fs
unfolding prune_secrets find_file
prune_secrets-kept removes name ss [] h = refl
prune_secrets-kept removes name ss ((k, text) ∷ fs) h = elim (Bool-cases (text_eq k name)) [
  | inl t ↦ let same = text_eq_sound k name t in rw same (rw (h, text_eq_self name) refl)
  | inr f ↦ elim (Bool-cases (keeps k ss)) [
    | inl kept ↦ rw kept (rw f (prune_secrets-kept removes name ss fs h))
    | inr gone ↦ elim (Bool-cases (removes k)) [
      | inl ok ↦ rw (gone, ok) (rw f (prune_secrets-kept removes name ss fs h))
      | inr bad ↦ rw (gone, bad) refl
    ]
  ]
]

prune_secrets-gone :
    (removes : Text → Bool) (name : Text) (ss : List Secret) (fs : List (Text × Text))
    → (prune_secrets removes ss fs).1 ≡ true
    → keeps name ss ≡ false
    → find_file name (prune_secrets removes ss fs).0 ≡ none
unfolding prune_secrets find_file
prune_secrets-gone removes name ss [] ok h = refl
prune_secrets-gone removes name ss ((k, text) ∷ fs) ok h = elim (Bool-cases (keeps k ss)) [
  | inl kept ↦ elim (Bool-cases (text_eq k name)) [
    | inl t ↦
        let same = text_eq_sound k name t in
        let here : keeps name ss ≡ true = rw same at kept in absurd (cc)
    | inr f ↦ rw kept (rw f (prune_secrets-gone removes name ss fs (rw kept at ok) h))
  ]
  | inr gone ↦ elim (Bool-cases (removes k)) [
    | inl can ↦ rw (gone, can) (prune_secrets-gone removes name ss fs (rw (gone, can) at ok) h)
    | inr bad ↦ let stuck = rw (gone, bad) at ok in absurd (cc)
  ]
]

prune-All :
    (removes : Text → Bool) (rows ss : List Secret) (fs : List (Text × Text))
    → All (λ (s : Secret). keeps s.name rows ≡ true) ss
    → All (HasFile fs) ss
    → All (HasFile (prune_secrets removes rows fs).0) ss
prune-All removes rows [] fs named h = tt
prune-All removes rows (s ∷ ss) fs (own, named) ((c, held), h) = (
  (c, prune_secrets-kept removes s.name rows fs own ∙ held),
  prune-All removes rows ss fs named h,
)

keeps-rows : (ss : List Secret) → All (λ (s : Secret). keeps s.name ss ≡ true) ss
keeps-rows [] = tt
keeps-rows (s ∷ ss) = (
  rw (text_eq_self s.name) refl,
  imp-All (λ (r : Secret). keeps r.name ss ≡ true) (λ (r : Secret). keeps r.name (s ∷ ss) ≡ true) ss
      (λ r h. ground (arith, h)) (keeps-rows ss),
)

keeps-HasFile :
    (name : Text) (ss : List Secret) (fs : List (Text × Text))
    → All (HasFile fs) ss
    → keeps name ss ≡ true
    → (c : Text) × (find_file name fs ≡ some c)
keeps-HasFile name [] fs h k = absurd (cc)
keeps-HasFile name (s ∷ ss) fs ((c, held), h) k = elim (Bool-cases (text_eq s.name name)) [
  | inl t ↦ (c, ap (λ n. find_file n fs) (sym (text_eq_sound s.name name t)) ∙ held)
  | inr f ↦ keeps-HasFile name ss fs h (rw f at k)
]

prune_secrets_iff :
    (removes : Text → Bool) (name : Text) (ss : List Secret) (fs : List (Text × Text))
    → All (HasFile fs) ss
    → (prune_secrets removes ss fs).1 ≡ true
    → (find_file name (prune_secrets removes ss fs).0 ≢ none) ↔ (keeps name ss ≡ true)
prune_secrets_iff removes name ss fs h ok = (
  λ there. elim (Bool-cases (keeps name ss)) [
    | inl t ↦ t
    | inr f ↦ absurd (there (prune_secrets-gone removes name ss fs ok f))
  ],
  λ kept absent.
      let (c, held) = keeps-HasFile name ss fs h kept in
      let same = prune_secrets-kept removes name ss fs kept in absurd (cc),
)

index-All :
    (types : List MountType) (ws : List Workload) (ss : List Secret) (fs : List (Text × Text))
    → All (HasFile fs) ss
    → All (IndexHasFile fs) (index_secrets types ws ss)
unfolding index_secrets
index-All types ws ss fs =
    map-All (HasFile fs) (IndexHasFile fs) (index_secret types ws) ss (λ s h. h)

start_apply-IsSealed :
    (types : List MountType) (stop : Stop) (removes : Text → Bool) (g : Registry)
    → IsSealed g
    → IsSealed (start_apply types stop removes g).0
unfolding start_apply
start_apply-IsSealed types at_index removes g h = h
start_apply-IsSealed types after_index removes g h =
    (h.0, index-All types g.workloads g.secrets g.ciphertexts h.0)
start_apply-IsSealed types nowhere removes g h =
    let files = (prune_secrets removes g.secrets g.ciphertexts).0 in
    let kept = prune-All removes g.secrets g.secrets g.ciphertexts (keeps-rows g.secrets) h.0 in
    (kept, index-All types g.workloads g.secrets files kept)

mark-IsSealed :
    (now : ℕ) (ids : List ℕ) (ss : List Secret) (fs : List (Text × Text))
    → All (HasFile fs) ss
    → All (HasFile fs) (mark_secrets now ids ss)
unfolding mark_secrets mark_secret_applied
mark-IsSealed now [] ss fs h = h
mark-IsSealed now (id ∷ ids) ss fs h =
    mark-IsSealed now ids (mark_secret_applied now id ss) fs
      (on_id-HasFile _ id fs ss (λ s. refl) h)

step-IsSealed :
    (types : List MountType) (g : Registry) (r : Request) → IsSealed g → IsSealed (step types g r)
unfolding step handle_secret_create handle_secret_save handle_secret_delete
    handle_workload_secret_create set_workload_secret_mount forget_workload
step-IsSealed types g (create p m) h =
    create_named-IsSealed (parse_secret_form types g.workloads p) (trim_space p.name)
      (λ (f : SecretForm). f.mounts) m g h
step-IsSealed types g (save name p m) h =
    lookup_secret-IsSealed name _ g h
      (λ s. save_checked-IsSealed (parse_secret_form types g.workloads p) s m g h)
step-IsSealed types g (delete name m) h = lookup_secret-IsSealed name _ g h (λ s.
    elim (Bool-cases m.store_fails) [
      | inl t ↦ rw t h
      | inr f ↦ rw f (delete-All (HasFile g.ciphertexts) s.id g.secrets h.0, h.1)
    ])
step-IsSealed types g (create_for workload p m) h =
    secrets_workload-IsSealed types workload _ g h (λ w.
      create_named-IsSealed (parse_secret_form types g.workloads p) (trim_space p.name)
        (λ f. w.id ∷ []) m g h)
step-IsSealed types g (mount workload secret attach m) h =
    secrets_workload-IsSealed types workload _ g h (λ w. mount_named-IsSealed secret attach w m g h)
step-IsSealed types g (apply stop removes) h = start_apply-IsSealed types stop removes g h
step-IsSealed types g (mark now ids) h = (mark-IsSealed now ids g.secrets g.ciphertexts h.0, h.1)
step-IsSealed types g (destroy id ws) h =
    (map-HasFile _ g.ciphertexts g.secrets (λ s. refl) h.0, h.1)
step-IsSealed types g (change ws) h = h

-- If every secret of the database and of the index on disk has its ciphertext file, then after any
-- requests, applies, marks of rebuilds and changes of the workloads, one after another, whichever of
-- them fail and wherever, every secret of the database and of the index on disk still has one.
pub run-IsSealed :
    (types : List MountType) (g : Registry) (rs : List Request)
    → IsSealed g
    → IsSealed (run types g rs)
unfolding run
run-IsSealed types g [] h = h
run-IsSealed types g (r ∷ rs) h = run-IsSealed types (step types g r) rs (step-IsSealed types g r h)

-- If every secret had its ciphertext file, then after any requests and then a startApply that reports no
-- error, a name has a file exactly if a secret of the database has the name, and the index on disk is
-- that of the database.
pub run-start_apply :
    (types : List MountType) (g : Registry) (rs : List Request) (removes : Text → Bool)
    (name : Text)
    → IsSealed g
    → (start_apply types nowhere removes (run types g rs)).1 ≡ true
    → let h = run types g rs in
      let k = (start_apply types nowhere removes h).0 in
      ((find_file name k.ciphertexts ≢ none) ↔ (keeps name k.secrets ≡ true))
      × (k.index ≡ index_secrets types k.workloads k.secrets)
unfolding start_apply
run-start_apply types g rs removes name whole ok =
    let h = run types g rs in
    (
      prune_secrets_iff removes name h.secrets h.ciphertexts (run-IsSealed types g rs whole).0 ok,
      refl,
    )
