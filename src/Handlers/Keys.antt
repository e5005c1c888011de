-- ===== src/Handlers/Keys.antt =====
-- The names and ids of the workloads table of internal/store/store.go, as the requests of
-- internal/server/handlers_workload.go meet them.
use mathlib.Core.Option.{some-injective}
use mathlib.Core.Path.{subst}
use nixbox.Prelude.{
  All, Bool-cases, List, Text, [], ap, arith, false, imp-All, inl, inr, map, map-All, none, refl,
  some, suc, sym, text_eq, text_eq_self, text_eq_sound, text_eq_sym, true, ℕ, ◌==◌, ◌∙◌, ◌∷◌, ◌≡◌,
  ◌≤◌,
}
use nixbox.Store.Workloads.{Workload, find_id, find_name, max_workload, update_id}

abbrev pub Apart : Workload → Workload → Type 0
Apart w v = ((v.id == w.id) ≡ false) × (text_eq v.name w.name ≡ false)

-- No two rows have the same id or the same name.
abbrev pub Keyed : List Workload → Type 0
Keyed [] = Unit
Keyed (w ∷ ws) = All (Apart w) ws × Keyed ws

-- Two rows with the same id are not both there, nor two with the same name.
abbrev Same : Workload → Workload → Type 0
Same w v = (v.id == w.id) ≡ text_eq v.name w.name

find_name-All {κ} :
    (P : Workload → Type κ) (name : Text) (ws : List Workload) (w : Workload)
    → find_name name ws ≡ some w
    → All P ws
    → P w
unfolding find_name
find_name-All P name [] w e h = cc
find_name-All P name (v ∷ ws) w e (h, hs) = elim (Bool-cases (text_eq v.name name)) [
  | inl t ↦ let same : v ≡ w = some-injective _ _ (rw t at e) in subst P same h
  | inr f ↦ find_name-All P name ws w (rw f at e) hs
]

pub find_name-name :
    (name : Text) (ws : List Workload) (w : Workload) → find_name name ws ≡ some w → w.name ≡ name
unfolding find_name
find_name-name name [] w e = cc
find_name-name name (v ∷ ws) w e = elim (Bool-cases (text_eq v.name name)) [
  | inl t ↦
      let same : v ≡ w = some-injective _ _ (rw t at e) in
      ap (λ (x : Workload). x.name) (sym same) ∙ text_eq_sound v.name name t
  | inr f ↦ find_name-name name ws w (rw f at e)
]

Apart-Same : (w v : Workload) → Apart w v → Same w v
Apart-Same w v (i, n) = i ∙ sym n

id_sym : (a b : ℕ) → (a == b) ≡ false → (b == a) ≡ false
id_sym a b h = ground arith

Apart-flip : (w v : Workload) → Apart w v → Same v w
Apart-flip w v (i, n) = id_sym v.id w.id i ∙ sym (text_eq_sym w.name v.name ∙ n)

id_self : (w : Workload) → Same w w
id_self w = let n = text_eq_self w.name in let i : (w.id == w.id) ≡ true = ground arith in i ∙ sym n

-- The row that a name finds is the only one with its name and the only one with its id.
pub find_name-Same :
    (name : Text) (ws : List Workload) (w : Workload)
    → Keyed ws
    → find_name name ws ≡ some w
    → All (λ (v : Workload). (v.id == w.id) ≡ text_eq v.name w.name) ws
unfolding find_name
find_name-Same name [] w key e = tt
find_name-Same name (v ∷ ws) w (apart, key) e = elim (Bool-cases (text_eq v.name name)) [
  | inl t ↦
      let same : v ≡ w = some-injective _ _ (rw t at e) in
      subst (λ (x : Workload). All (Same x) (v ∷ ws)) same
        (id_self v, imp-All (Apart v) (Same v) ws (Apart-Same v) apart)
  | inr f ↦
      let found : find_name name ws ≡ some w = rw f at e in
      (
        Apart-flip v w (find_name-All (Apart v) name ws w found apart),
        find_name-Same name ws w key found,
      )
]

-- Such a row is found by its id too.
pub find_name-find_id :
    (name : Text) (ws : List Workload) (w : Workload)
    → find_name name ws ≡ some w
    → (u : Workload) × (find_id w.id ws ≡ some u)
unfolding find_name find_id
find_name-find_id name [] w e = cc
find_name-find_id name (v ∷ ws) w e = elim (Bool-cases (text_eq v.name name)) [
  | inl t ↦
      let same : v ≡ w = some-injective _ _ (rw t at e) in
      let own : (v.id == w.id) ≡ true = rw (ap (λ (x : Workload). x.id) same) (ground arith) in
      (v, rw own refl)
  | inr f ↦
      let (u, found) = find_name-find_id name ws w (rw f at e) in
      elim (Bool-cases (v.id == w.id)) [
        | inl own ↦ (v, rw own refl)
        | inr other ↦ (u, rw other found)
      ]
]

-- Updates of a row keep its keys.
abbrev pub Keeps : (Workload → Workload) → Type 0
Keeps f = (w : Workload) → ((f w).id ≡ w.id) × ((f w).name ≡ w.name)

pub update_id-Keeps : (f : Workload → Workload) (id : ℕ) → Keeps f → Keeps (update_id f id)
update_id-Keeps f id keep w = elim (Bool-cases (w.id == id)) [
  | inl t ↦ rw t (keep w)
  | inr g ↦ rw g (refl, refl)
]

map-Keyed : (f : Workload → Workload) (ws : List Workload) → Keeps f → Keyed ws → Keyed (map f ws)
map-Keyed f [] keep key = tt
map-Keyed f (w ∷ ws) keep (apart, key) =
    let (i, n) = keep w in
    (
      map-All (Apart w) (Apart (f w)) f ws
          (λ v (a, b). let (j, m) = keep v in (rw (i, j) a, rw (n, m) b)) apart,
      map-Keyed f ws keep key,
    )

pub update-Keyed :
    (f : Workload → Workload) (id : ℕ) (ws : List Workload)
    → Keeps f
    → Keyed ws
    → Keyed (map (update_id f id) ws)
update-Keyed f id ws keep key = map-Keyed (update_id f id) ws (update_id-Keeps f id keep) key

-- A new row has a new id.
max_workload-All : (ws : List Workload) → All (λ (v : Workload). v.id ≤ max_workload ws) ws
max_workload-All [] = tt
max_workload-All (w ∷ ws) = (
  ground arith,
  imp-All (λ (v : Workload). v.id ≤ max_workload ws)
      (λ (v : Workload). v.id ≤ max_workload (w ∷ ws)) ws (λ v h. ground arith)
      (max_workload-All ws),
)

find_name-none :
    (name : Text) (ws : List Workload)
    → find_name name ws ≡ none
    → All (λ (v : Workload). text_eq v.name name ≡ false) ws
unfolding find_name
find_name-none name [] e = tt
find_name-none name (v ∷ ws) e = elim (Bool-cases (text_eq v.name name)) [
  | inl t ↦ absurd (ground arith)
  | inr f ↦ (f, find_name-none name ws (rw f at e))
]

pub new-Apart :
    (name : Text) (ws : List Workload)
    → find_name name ws ≡ none
    → All
        (λ (v : Workload).
          ((v.id == suc (max_workload ws)) ≡ false) × (text_eq v.name name ≡ false))
        ws
new-Apart name ws e = go ws (max_workload-All ws) (find_name-none name ws e)
  where
    go :
        (vs : List Workload)
        → All (λ (v : Workload). v.id ≤ max_workload ws) vs
        → All (λ (v : Workload). text_eq v.name name ≡ false) vs
        → All
            (λ (v : Workload).
              ((v.id == suc (max_workload ws)) ≡ false) × (text_eq v.name name ≡ false))
            vs
    go [] h g = tt
    go (v ∷ vs) (h, hs) (g, gs) = ((ground arith, g), go vs hs gs)
