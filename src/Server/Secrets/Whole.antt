-- ===== src/Server/Secrets/Whole.antt =====
-- The rows of internal/store/secrets.go beside the files of internal/nix/secrets.go.
use nixbox.Nix.Names.{validate_name}
use nixbox.Server.Secrets.Index.{IndexSecret}
use nixbox.Store.Workloads.{Workload}
use nixbox.Server.Secrets.Form.{SecretForm, Checked}
use nixbox.Store.Secrets.{
  Secret, replace_mounts, find_secret, create_secret, update_secret, on_id, delete_secret,
}
use nixbox.Handlers.{put_file, find_file}
use nixbox.Prelude.{
  All, Bool-cases, List, Option, Option-cases, Text, [], ap, arith, imp-All, inl, inr, map, map-All,
  none, refl, some, sym, text_eq, text_eq_sound, ℕ, ◌==◌, ◌∙◌, ◌∷◌, ◌≡◌, ◌⊎◌,
}
use nixbox.Server.Secrets.{
  checked, validate_name, unchecked, Secret, create_checked, create_sealed, create_named, stored,
  sealed, Meets, encrypt_secret, Registry,
}
use nixbox.Handlers.Files.{find_file-put_file, find_file-put_other}

-- There is a ciphertext file of this name.
abbrev pub IsHeld : List (Text × Text) → Text → Type 0
IsHeld files name = (c : Text) × (find_file name files ≡ some c)

abbrev pub HasFile : List (Text × Text) → Secret → Type 0
HasFile files s = IsHeld files s.name

abbrev pub IndexHasFile : List (Text × Text) → IndexSecret → Type 0
IndexHasFile files i = IsHeld files i.name

abbrev AllOf {κ} : (Secret → Type κ) → Option (List Secret) → Type κ
AllOf P none = Unit
AllOf P (some ss) = All P ss

-- Every secret of the database and of the index has its file.
abbrev pub IsSealed : Registry → Type 0
IsSealed g = All (HasFile g.ciphertexts) g.secrets × All (IndexHasFile g.ciphertexts) g.index

put-IsHeld :
    (name c : Text) (files : List (Text × Text)) (other : Text)
    → IsHeld files other
    → IsHeld (put_file name c files) other
put-IsHeld name c files other (d, held) = elim (Bool-cases (text_eq name other)) [
  | inl t ↦ (c, rw (sym (text_eq_sound name other t)) (find_file-put_file name c files))
  | inr f ↦ (d, find_file-put_other other name c files f ∙ held)
]

pub map-HasFile :
    (f : Secret → Secret) (files : List (Text × Text)) (ss : List Secret)
    → ((s : Secret) → (f s).name ≡ s.name)
    → All (HasFile files) ss
    → All (HasFile files) (map f ss)
map-HasFile f files ss keep h =
    map-All (HasFile files) (HasFile files) f ss
      (λ s held. (held.0, ap (λ n. find_file n files) (keep s) ∙ held.1)) h

on_id-name :
    (f : Secret → Secret) (id : ℕ) (s : Secret) → (f s).name ≡ s.name → (on_id f id s).name ≡ s.name
on_id-name f id s keep = ground (arith, keep)

pub on_id-HasFile :
    (f : Secret → Secret) (id : ℕ) (files : List (Text × Text)) (ss : List Secret)
    → ((s : Secret) → (f s).name ≡ s.name)
    → All (HasFile files) ss
    → All (HasFile files) (map (on_id f id) ss)
on_id-HasFile f id files ss keep =
    map-HasFile (on_id f id) files ss (λ s. on_id-name f id s (keep s))

pub encrypt_secret-cases :
    (name value : Text) (m : Meets) (files : List (Text × Text))
    → (encrypt_secret name value m files ≡ none)
      ⊎ ((c : Text) × (encrypt_secret name value m files ≡ some (put_file name c files)))
unfolding encrypt_secret
encrypt_secret-cases name value m files = elim (Option-cases (m.encrypt value)) [
  | inl fails ↦ inl (rw fails refl)
  | inr (c, sealed_) ↦ elim (Option-cases (validate_name name)) [
    | inl ok ↦ elim (Bool-cases m.write_fails) [
      | inl t ↦ inl (rw (sealed_, ok, sealed) (rw t refl))
      | inr f ↦ inr (c, rw (sealed_, ok, sealed) (rw f refl))
    ]
    | inr (e, bad) ↦ inl (rw (sealed_, bad, sealed) refl)
  ]
]

pub delete-All {κ} :
    (P : Secret → Type κ) (id : ℕ) (ss : List Secret) → All P ss → All P (delete_secret id ss)
unfolding delete_secret
delete-All P id [] h = tt
delete-All P id (s ∷ ss) (h, hs) = elim (Bool-cases (s.id == id)) [
  | inl t ↦ rw t (delete-All P id ss hs)
  | inr f ↦ rw f (h, delete-All P id ss hs)
]

create_secret-HasFile :
    (now : ℕ) (name owner group mode c : Text) (ids : List ℕ) (ws : List Workload)
    (ss : List Secret) (files : List (Text × Text))
    → All (HasFile files) ss
    → find_file name files ≡ some c
    → AllOf (HasFile files) (create_secret now name owner group mode ids ws ss)
unfolding create_secret
create_secret-HasFile now name owner group mode c ids ws ss files h held =
    elim (Option-cases (find_secret name ss)) [
      | inl absent ↦ elim (Option-cases (replace_mounts ws ids)) [
        | inl bad ↦ rw (absent, bad) tt
        | inr (mounts, good) ↦ rw (absent, good) ((c, held), h)
      ]
      | inr (s, taken) ↦ rw taken tt
    ]

pub update_secret-HasFile :
    (now id : ℕ) (owner group mode : Text) (ids : List ℕ) (ws : List Workload) (ss : List Secret)
    (files : List (Text × Text))
    → All (HasFile files) ss
    → AllOf (HasFile files) (update_secret now id owner group mode ids ws ss)
unfolding update_secret
update_secret-HasFile now id owner group mode ids ws ss files h =
    elim (Option-cases (replace_mounts ws ids)) [
      | inl bad ↦ rw bad tt
      | inr (mounts, good) ↦ rw good (on_id-HasFile _ id files ss (λ s. refl) h)
    ]

pub stored-IsSealed :
    (g : Registry) (o : Option (List Secret))
    → IsSealed g
    → AllOf (HasFile g.ciphertexts) o
    → IsSealed (stored g o).0
stored-IsSealed g none whole h = whole
stored-IsSealed g (some ss) whole h = (h, whole.1)

pub put-IsSealed :
    (name c : Text) (g : Registry)
    → IsSealed g
    → IsSealed (record g { ciphertexts = put_file name c g.ciphertexts })
put-IsSealed name c g (rows, index) =
    let files = put_file name c g.ciphertexts in
    (
      imp-All (HasFile g.ciphertexts) (HasFile files) g.secrets
          (λ s. put-IsHeld name c g.ciphertexts s.name) rows,
      imp-All (IndexHasFile g.ciphertexts) (IndexHasFile files) g.index
          (λ i. put-IsHeld name c g.ciphertexts i.name) index,
    )

pub create_named-IsSealed :
    (form : Checked) (name : Text) (ids : SecretForm → List ℕ) (m : Meets) (g : Registry)
    → IsSealed g
    → IsSealed (create_named name form ids m g).0
create_named-IsSealed form name ids m g whole = elim (Option-cases (validate_name name)) [
  | inr (e, bad) ↦ rw (bad, create_named) whole
  | inl ok ↦ rw (ok, create_named) (go form)
]
  where
    sealed_whole :
        (f : SecretForm) (o : Option (List (Text × Text)))
        → ((o ≡ none) ⊎ ((c : Text) × (o ≡ some (put_file name c g.ciphertexts))))
        → IsSealed (create_sealed o name f (ids f) m g).0
    sealed_whole f o (inl bad) = rw bad whole
    sealed_whole f o (inr (c, good)) =
        let files = put_file name c g.ciphertexts in
        let kept = put-IsSealed name c g whole in
        elim (Bool-cases m.store_fails) [
          | inl t ↦ rw (good, create_sealed) (rw t kept)
          | inr n ↦
              rw (good, create_sealed)
                (rw n (
                  stored-IsSealed (record g { ciphertexts = files })
                    (create_secret m.now name f.owner f.group f.mode (ids f) g.workloads g.secrets)
                    kept
                    (create_secret-HasFile m.now name f.owner f.group f.mode c (ids f) g.workloads
                      g.secrets files kept.0 (find_file-put_file name c g.ciphertexts))))
        ]

    go : (form : Checked) → IsSealed (create_checked form name ids m g).0
    go (unchecked e) = whole
    go (checked f) = elim (Bool-cases (text_eq f.value [])) [
      | inl t ↦ rw t whole
      | inr n ↦ elim (Option-cases (find_secret name g.secrets)) [
        | inr (s, taken) ↦ rw (n, taken) whole
        | inl absent ↦
            rw (n, absent) (sealed_whole f _ (encrypt_secret-cases name f.value m g.ciphertexts))
      ]
    ]
