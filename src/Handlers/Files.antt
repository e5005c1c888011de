-- ===== src/Handlers/Files.antt =====
-- The workload files of internal/nix/stateflake.go beside the latest revisions of
-- internal/store/store.go, when internal/server/handlers_workload.go writes one of each.
use nixbox.Prelude.{
  All, Bool, Bool-cases, List, Option-cases, Text, [], and-All, arith, false, imp-All, inl, inr,
  none, refl, some, text_eq, text_eq_self, text_eq_sound, text_eq_sym, true, ℕ, ◌==◌, ◌∙◌, ◌∷◌, ◌≡◌,
  ◌⊎◌,
}
use nixbox.Nix.Names.{validate_name}
use nixbox.Store.Workloads.{Workload, Revision, find_name, newest, new_revision, save_revision}
use nixbox.Store.Workloads.Rows.{newest-new_revision, newest-other}
use nixbox.Handlers.{Site, Reply, find_file, put_file, write_workload, store_revision}
use nixbox.Handlers.Keys.{Keyed, find_name-Same, find_name-find_id}

-- The file of a workload holds what its latest revision holds.
abbrev pub Mirrored : List Revision → List (Text × Text) → Workload → Type 0
Mirrored rs files w =
    (r : Revision) × (newest w.id rs ≡ some r) × (find_file w.name files ≡ some r.content)

pub find_file-put_file :
    (name text : Text) (fs : List (Text × Text))
    → find_file name (put_file name text fs) ≡ some text
unfolding find_file put_file
find_file-put_file name text [] = rw (text_eq_self name) refl
find_file-put_file name text ((k, old) ∷ fs) = elim (Bool-cases (text_eq k name)) [
  | inl t ↦ rw (t, t) refl
  | inr f ↦ rw (f, f) (find_file-put_file name text fs)
]

pub find_file-put_other :
    (other name text : Text) (fs : List (Text × Text))
    → text_eq name other ≡ false
    → find_file other (put_file name text fs) ≡ find_file other fs
unfolding find_file put_file
find_file-put_other other name text [] ne = rw ne refl
find_file-put_other other name text ((k, old) ∷ fs) ne = elim (Bool-cases (text_eq k name)) [
  | inl t ↦
      let apart : text_eq k other ≡ false = rw (text_eq_sound k name t) ne in rw (t, apart) refl
  | inr f ↦ elim (Bool-cases (text_eq k other)) [
    | inl t ↦ rw (f, t) refl
    | inr g ↦ rw (f, g) (find_file-put_other other name text fs ne)
  ]
]

-- What is left to prove of a workload when a revision and a file are new: it is the workload of both or
-- of neither.
pub put-Mirrored :
    (id : ℕ) (name : Text) (content ports note : Text) (rs : List Revision)
    (files : List (Text × Text)) (v : Workload)
    → (v.id == id) ≡ text_eq v.name name
    → (text_eq v.name name ≡ false → Mirrored rs files v)
    → Mirrored (new_revision id content ports note rs ∷ rs) (put_file name content files) v
put-Mirrored id name content ports note rs files v same kept =
    elim (Bool-cases (text_eq v.name name)) [
      | inl t ↦
          let id_too : (v.id == id) ≡ true = same ∙ t in
          let own_id : v.id ≡ id = ground arith in
          (
            new_revision id content ports note rs,
            rw own_id (newest-new_revision id content ports note rs),
            rw (text_eq_sound v.name name t) (find_file-put_file name content files),
          )
      | inr f ↦
          let (r, latest, held) = kept f in
          let other_id : (v.id == id) ≡ false = same ∙ f in
          (
            r,
            newest-other v.id id content ports note rs (λ e. ground arith) ∙ latest,
            find_file-put_other v.name name content files (text_eq_sym name v.name ∙ f) ∙ held,
          )
    ]

pub write_workload-cases :
    (name text : Text) (fails : Bool) (files : List (Text × Text))
    → (write_workload name text fails files ≡ none)
      ⊎ (write_workload name text fails files ≡ some (put_file name text files))
unfolding write_workload
write_workload-cases name text fails files = elim (Option-cases (validate_name name)) [
  | inl ok ↦ elim (Bool-cases fails) [
    | inl t ↦ inl (rw (ok, write_workload) (rw t refl))
    | inr f ↦ inr (rw (ok, write_workload) (rw f refl))
  ]
  | inr (err, bad) ↦ inl (rw (bad, write_workload) refl)
]

abbrev pub AllMirrored : Site → Type 0
AllMirrored s = All (Mirrored s.tables.revisions s.files) s.tables.workloads

-- Unless the store reports an error, a write and its revision are both there or neither.
pub store_revision-AllMirrored :
    (found : Text) (w : Workload) (content ports note : Text) (r : Reply) (s : Site)
    → r.store_fails ≡ false
    → find_name found s.tables.workloads ≡ some w
    → Keyed s.tables.workloads
    → AllMirrored s
    → let s' = (store_revision w content ports note r s).0 in
      (s'.tables.workloads ≡ s.tables.workloads) × AllMirrored s'
unfolding store_revision save_revision
store_revision-AllMirrored found w content ports note r s stored e key h =
    elim (write_workload-cases w.name content r.write_fails s.files) [
      | inl refused_ ↦ rw (refused_, store_revision) (refl, h)
      | inr put ↦
          let rs = s.tables.revisions in
          let Same = λ (v : Workload). (v.id == w.id) ≡ text_eq v.name w.name in
          let put_one = put-Mirrored w.id w.name content ports note rs s.files in
          let (u, row) = find_name-find_id found s.tables.workloads w e in
          rw (put, store_revision)
            (rw stored (
              rw (row, save_revision)
                (
                  refl,
                  imp-All (λ (v : Workload). Same v × Mirrored rs s.files v)
                      (Mirrored (new_revision w.id content ports note rs ∷ rs)
                        (put_file w.name content s.files))
                      s.tables.workloads (λ v (same, kept). put_one v same (λ _. kept))
                      (and-All Same (Mirrored rs s.files) s.tables.workloads
                        (find_name-Same found s.tables.workloads w key e) h),
                )))
    ]
