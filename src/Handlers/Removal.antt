-- ===== src/Handlers/Removal.antt =====
-- The job of handleWorkloadDestroy in internal/server/handlers_workload.go, from the end of its rebuild
-- on. Stopping the unit and deleting the data directory are left out.
use mathlib.Core.Path.{subst}
use nixbox.Prelude.{
  All, Bool, Bool-cases, List, Option, Text, [], and-All, arith, false, if◌then◌else◌, imp-All, inl,
  inr, none, refl, some, sym, text_eq, text_eq_sound, text_eq_sym, true, ℕ, ◌==◌, ◌∙◌, ◌∷◌, ◌≡◌,
}
use nixbox.Nix.Names.{validate_name}
use nixbox.Nix.Rebuild.{Outcome, broken, exited, done}
use nixbox.Store.Workloads.{
  Workload, Revision, find_name, newest, drop_workload, drop_revisions, delete_workload,
}
use nixbox.Handlers.{Site, Reply, find_file}
use nixbox.Handlers.Keys.{Apart, Keyed, find_name-name, find_name-Same}
use nixbox.Handlers.Files.{Mirrored}
use nixbox.Handlers.Whole.{IsWhole}

-- RemoveWorkload, on the file of the workload.
unfoldable pub remove_file : Text → List (Text × Text) → List (Text × Text)
remove_file name [] = []
remove_file name ((k, text) ∷ fs) =
    let rest = remove_file name fs in if text_eq k name then rest else (k, text) ∷ rest

unfoldable pub remove_workload :
    Text → (fails : Bool) → List (Text × Text) → Option (List (Text × Text))
unfolding validate_name remove_file
remove_workload name fails files = elim (validate_name name) [
  | some _ ↦ none
  | none ↦ if fails then none else some (remove_file name files)
]

abbrev pub removed : Option (List (Text × Text)) → Site → Site × Bool
removed none s = (s, false)
removed (some files) s = (record s { files = files }, true)

-- What the job does with the site, and whether it is a success.
unfoldable pub destroy_end : Outcome → (id : ℕ) → (name : Text) → Reply → Site → Site × Bool
unfolding delete_workload remove_workload
destroy_end broken id name r s = (s, false)
destroy_end (exited code) id name r s = (s, false)
destroy_end (done generation) id name r s =
    if r.store_fails
    then (s, false)
    else removed (remove_workload name r.write_fails s.files)
        (record s { tables = delete_workload id s.tables })

drop_workload-All :
    (Q : Workload → Type 0) (id : ℕ) (ws : List Workload)
    → All (λ v. (v.id == id) ≡ false → Q v) ws
    → All Q (drop_workload id ws)
drop_workload-All Q id [] h = tt
drop_workload-All Q id (w ∷ ws) (h, hs) = elim (Bool-cases (w.id == id)) [
  | inl t ↦ rw t (drop_workload-All Q id ws hs)
  | inr f ↦ rw f (h f, drop_workload-All Q id ws hs)
]

drop_workload-Keyed : (id : ℕ) (ws : List Workload) → Keyed ws → Keyed (drop_workload id ws)
drop_workload-Keyed id [] key = tt
drop_workload-Keyed id (w ∷ ws) (apart, key) = elim (Bool-cases (w.id == id)) [
  | inl t ↦ rw t (drop_workload-Keyed id ws key)
  | inr f ↦ rw f (
    drop_workload-All (Apart w) id ws
        (imp-All (Apart w) (λ v. (v.id == id) ≡ false → Apart w v) ws (λ v a _. a) apart),
    drop_workload-Keyed id ws key,
  )
]

newest-drop_revisions :
    (wid id : ℕ) (rs : List Revision)
    → (wid == id) ≡ false
    → newest wid (drop_revisions id rs) ≡ newest wid rs
unfolding newest
newest-drop_revisions wid id [] ne = refl
newest-drop_revisions wid id (r ∷ rs) ne =
    let rest = newest-drop_revisions wid id rs ne in
    elim (Bool-cases (r.workload_id == id)) [
      | inl t ↦ let other : (r.workload_id == wid) ≡ false = ground arith in rw (t, other) rest
      | inr f ↦ rw f (elim (Bool-cases (r.workload_id == wid)) [
        | inl own ↦ rw (own, rest) refl
        | inr other ↦ rw other rest
      ])
    ]

find_file-remove_file :
    (name : Text) (fs : List (Text × Text)) → find_file name (remove_file name fs) ≡ none
unfolding find_file remove_file
find_file-remove_file name [] = refl
find_file-remove_file name ((k, text) ∷ fs) = elim (Bool-cases (text_eq k name)) [
  | inl t ↦ rw t (find_file-remove_file name fs)
  | inr f ↦ rw (f, f) (find_file-remove_file name fs)
]

find_file-remove_other :
    (other name : Text) (fs : List (Text × Text))
    → text_eq name other ≡ false
    → find_file other (remove_file name fs) ≡ find_file other fs
unfolding find_file remove_file
find_file-remove_other other name [] ne = refl
find_file-remove_other other name ((k, text) ∷ fs) ne =
    let rest = find_file-remove_other other name fs ne in
    elim (Bool-cases (text_eq k name)) [
      | inl t ↦
          let apart : text_eq k other ≡ false = rw (text_eq_sound k name t) ne in rw (t, apart) rest
      | inr f ↦ elim (Bool-cases (text_eq k other)) [
        | inl t ↦ rw (f, t) refl
        | inr g ↦ rw (f, g) rest
      ]
    ]

-- No row of the name is left when the row of its id is gone.
find_name-drop_workload :
    (id : ℕ) (name : Text) (ws : List Workload)
    → All (λ (v : Workload). (v.id == id) ≡ text_eq v.name name) ws
    → find_name name (drop_workload id ws) ≡ none
unfolding find_name
find_name-drop_workload id name [] h = refl
find_name-drop_workload id name (v ∷ ws) (h, hs) = elim (Bool-cases (v.id == id)) [
  | inl t ↦ rw t (find_name-drop_workload id name ws hs)
  | inr f ↦
      let other : text_eq v.name name ≡ false = sym h ∙ f in
      rw (f, other) (find_name-drop_workload id name ws hs)
]

-- A destroy of a workload whose rebuild ends with success, with no fault, on a site where names and ids
-- differ and files hold the latest revisions: the job is a success, the name has neither a row nor a file
-- any more, and the site is still such a one.
pub destroy_end-removes :
    (generation : Option ℕ) (name : Text) (r : Reply) (s : Site) (w : Workload)
    → IsWhole s
    → validate_name name ≡ none
    → find_name name s.tables.workloads ≡ some w
    → r.store_fails ≡ false
    → r.write_fails ≡ false
    → let (s', ok) = destroy_end (done generation) w.id name r s in
      (ok ≡ true)
      × (find_name name s'.tables.workloads ≡ none)
      × (find_file name s'.files ≡ none)
      × IsWhole s'
unfolding destroy_end delete_workload
destroy_end-removes generation name r s w (key, h) valid found stored wrote =
    let rs = s.tables.revisions in
    let ws = s.tables.workloads in
    let own = find_name-name name ws w found in
    let same : All (λ (v : Workload). (v.id == w.id) ≡ text_eq v.name name) ws =
      subst (λ n. All (λ (v : Workload). (v.id == w.id) ≡ text_eq v.name n) ws) own
        (find_name-Same name ws w key found) in
    let gone : remove_workload name r.write_fails s.files ≡ some (remove_file name s.files) =
      rw (valid, remove_workload) (rw wrote refl) in
    let Same = λ (v : Workload). (v.id == w.id) ≡ text_eq v.name name in
    let Kept = Mirrored (drop_revisions w.id rs) (remove_file name s.files) in
    let kept : All (λ (v : Workload). (v.id == w.id) ≡ false → Kept v) ws =
      imp-All (λ (v : Workload). Same v × Mirrored rs s.files v)
        (λ (v : Workload). (v.id == w.id) ≡ false → Kept v) ws
        (λ v (e, (k, latest, held)) ne. (
          k,
          newest-drop_revisions v.id w.id rs ne ∙ latest,
          find_file-remove_other v.name name s.files (text_eq_sym name v.name ∙ (sym e ∙ ne))
              ∙ held,
        ))
        (and-All Same (Mirrored rs s.files) ws same h) in
    rw stored (
      rw gone (
        refl,
        find_name-drop_workload w.id name ws same,
        find_file-remove_file name s.files,
        (drop_workload-Keyed w.id ws key, drop_workload-All Kept w.id ws kept),
      ))
