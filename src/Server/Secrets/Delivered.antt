-- ===== src/Server/Secrets/Delivered.antt =====
-- The mounts that a form of internal/server/handlers_secrets.go posts, and those that replaceMounts of
-- internal/store/secrets.go stores.
use nixbox.Store.Secrets.{insert_mount, has_mount, replace_mounts}
use nixbox.Server.Secrets.Form.{supports, MountType, parse_mounts}
use nixbox.Store.Workloads.{Workload, find_id}
use mathlib.Core.Path.{subst}
use nixbox.Prelude.{
  All, Bool, Bool-cases, List, [], ap, arith, false, if◌then◌else◌, imp-All, inl, inr, ltb, map,
  refl, some, true, ℕ, ◌&&◌, ◌<◌, ◌==◌, ◌^◌, ◌||◌, ◌∙◌, ◌∷◌, ◌≡◌,
}
use nixbox.Handlers.Keys.{Apart, Keyed}
use nixbox.Server.Secrets.Dialog.{targets, kept}

-- The id is that of a row whose type supports mounts.
abbrev pub IsReady : List MountType → List Workload → ℕ → Type 0
IsReady types ws id = (w : Workload) × (find_id id ws ≡ some w) × (supports types w.typ ≡ true)

abbrev AreDistinct : List ℕ → Type 0
AreDistinct [] = Unit
AreDistinct (i ∷ is) = (has_mount i is ≡ false) × AreDistinct is

abbrev pub is_target : ℕ → List Workload → Bool
is_target id [] = false
is_target id (w ∷ ws) = w.id == id || is_target id ws

Keyed-found : (ws : List Workload) → Keyed ws → All (λ (w : Workload). find_id w.id ws ≡ some w) ws
unfolding find_id
Keyed-found [] h = tt
Keyed-found (w ∷ ws) (apart, h) =
    let self : (w.id == w.id) ≡ true = ground arith in
    (rw self refl, go ws apart (Keyed-found ws h))
  where
    go :
        (vs : List Workload)
        → All (Apart w) vs
        → All (λ (v : Workload). find_id v.id ws ≡ some v) vs
        → All (λ (v : Workload). find_id v.id (w ∷ ws) ≡ some v) vs
    go [] a h = tt
    go (v ∷ vs) (a, more) (h, hs) =
        let other : (w.id == v.id) ≡ false = ground arith in (rw other h, go vs more hs)

targets-All {κ} :
    (P : Workload → Type κ) (types : List MountType) (ws : List Workload)
    → All P ws
    → All (λ (w : Workload). P w × (supports types w.typ ≡ true)) (targets types ws)
unfolding targets
targets-All P types [] h = tt
targets-All P types (w ∷ ws) (h, hs) = elim (Bool-cases (supports types w.typ)) [
  | inl y ↦ rw y ((h, y), targets-All P types ws hs)
  | inr n ↦ rw n (targets-All P types ws hs)
]

targets-fewer {κ} :
    (P : Workload → Type κ) (types : List MountType) (ws : List Workload)
    → All P ws
    → All P (targets types ws)
unfolding targets
targets-fewer P types [] h = tt
targets-fewer P types (w ∷ ws) (h, hs) = elim (Bool-cases (supports types w.typ)) [
  | inl y ↦ rw y (h, targets-fewer P types ws hs)
  | inr n ↦ rw n (targets-fewer P types ws hs)
]

pub targets-small :
    (types : List MountType) (ws : List Workload)
    → All (λ (w : Workload). w.id < 2 ^ 63) ws
    → All (λ (w : Workload). w.id < 2 ^ 63) (targets types ws)
targets-small = targets-fewer (λ (w : Workload). w.id < 2 ^ 63)

targets-Keyed : (types : List MountType) (ws : List Workload) → Keyed ws → Keyed (targets types ws)
unfolding targets
targets-Keyed types [] h = tt
targets-Keyed types (w ∷ ws) (apart, h) = elim (Bool-cases (supports types w.typ)) [
  | inl y ↦ rw y (targets-fewer (Apart w) types ws apart, targets-Keyed types ws h)
  | inr n ↦ rw n (targets-Keyed types ws h)
]

kept-All {κ} :
    (P : ℕ → Type κ) (ids : List ℕ) (ws : List Workload)
    → All (λ (w : Workload). P w.id) ws
    → All P (kept ids ws)
unfolding kept
kept-All P ids [] h = tt
kept-All P ids (w ∷ ws) (h, hs) = elim (Bool-cases (has_mount w.id ids)) [
  | inl y ↦ rw y (h, kept-All P ids ws hs)
  | inr n ↦ rw n (kept-All P ids ws hs)
]

kept-fresh :
    (ids : List ℕ) (w : Workload) (ws : List Workload)
    → All (Apart w) ws
    → has_mount w.id (kept ids ws) ≡ false
unfolding kept has_mount
kept-fresh ids w [] h = refl
kept-fresh ids w (v ∷ ws) (h, hs) = elim (Bool-cases (has_mount v.id ids)) [
  | inl y ↦ rw y (ground (arith, kept-fresh ids w ws hs))
  | inr n ↦ rw n (kept-fresh ids w ws hs)
]

kept-AreDistinct : (ids : List ℕ) (ws : List Workload) → Keyed ws → AreDistinct (kept ids ws)
unfolding kept
kept-AreDistinct ids [] h = tt
kept-AreDistinct ids (w ∷ ws) (apart, h) = elim (Bool-cases (has_mount w.id ids)) [
  | inl y ↦ rw y (kept-fresh ids w ws apart, kept-AreDistinct ids ws h)
  | inr n ↦ rw n (kept-AreDistinct ids ws h)
]

has_mount-insert :
    (i j : ℕ) (is : List ℕ) → has_mount i (insert_mount j is) ≡ (j == i || has_mount i is)
unfolding has_mount insert_mount
has_mount-insert i j [] = refl
has_mount-insert i j (k ∷ is) = elim (Bool-cases (ltb k j)) [
  | inl y ↦ rw y (ground (arith, has_mount-insert i j is))
  | inr n ↦ rw n refl
]

replace_mounts-stored :
    (types : List MountType) (ws : List Workload) (ids : List ℕ)
    → All (IsReady types ws) ids
    → AreDistinct ids
    → (m : List ℕ) × (replace_mounts ws ids ≡ some m) × ((i : ℕ) → has_mount i m ≡ has_mount i ids)
unfolding replace_mounts has_mount
replace_mounts-stored types ws [] h d = ([], refl, λ i. refl)
replace_mounts-stored types ws (j ∷ ids) ((w, found, s), h) (fresh_, d) =
    let (m, stored_, same) = replace_mounts-stored types ws ids h d in
    let new_ : has_mount j m ≡ false = same j ∙ fresh_ in
    (
      insert_mount j m,
      rw (found, stored_) (rw new_ refl),
      λ i. has_mount-insert i j m ∙ ap (λ b. j == i || b) (same i),
    )

parse_mounts-some :
    (types : List MountType) (ws : List Workload) (ids : List ℕ)
    → All (IsReady types ws) ids
    → parse_mounts types ws (map some ids) ≡ some ids
unfolding parse_mounts
parse_mounts-some types ws [] h = refl
parse_mounts-some types ws (i ∷ ids) ((w, found, s), h) =
    rw (found, parse_mounts-some types ws ids h) (rw s refl)

has_mount-if :
    (i : ℕ) (here : Bool) (j : ℕ) (is : List ℕ)
    → has_mount i (if here then j ∷ is else is) ≡ ((here && j == i) || has_mount i is)
unfolding has_mount
has_mount-if i true j is = refl
has_mount-if i false j is = refl

and_false : (b : Bool) → false ≡ (b && false)
and_false true = refl
and_false false = refl

and_or : (b t : Bool) → ((b && true) || (b && t)) ≡ (b && (true || t))
and_or true t = refl
and_or false t = refl

and_or_same : (c b x t : Bool) → (x ≡ true → c ≡ b) → ((c && x) || (b && t)) ≡ (b && (x || t))
and_or_same c b true t same = ap (λ d. (d && true) || (b && t)) (same refl) ∙ and_or b t
and_or_same true b false t same = refl
and_or_same false b false t same = refl

has_mount-kept :
    (i : ℕ) (ids : List ℕ) (ws : List Workload)
    → has_mount i (kept ids ws) ≡ (has_mount i ids && is_target i ws)
unfolding kept
has_mount-kept i ids [] = and_false (has_mount i ids)
has_mount-kept i ids (w ∷ ws) =
    has_mount-if i (has_mount w.id ids) w.id (kept ids ws)
    ∙ (ap (λ b. (has_mount w.id ids && w.id == i) || b) (has_mount-kept i ids ws)
        ∙ and_or_same (has_mount w.id ids) (has_mount i ids) (w.id == i) (is_target i ws)
            (λ e. let same : w.id ≡ i = ground arith in ap (λ j. has_mount j ids) same))

all_targets :
    (i : ℕ) (ids : List ℕ) (ws : List Workload)
    → All (λ j. is_target j ws ≡ true) ids
    → (has_mount i ids && is_target i ws) ≡ has_mount i ids
unfolding has_mount
all_targets i [] ws h = refl
all_targets i (j ∷ ids) ws (h, hs) = elim (Bool-cases (j == i)) [
  | inl t ↦
      let same : j ≡ i = ground arith in
      let here : is_target i ws ≡ true = subst (λ k. is_target k ws ≡ true) same h in
      rw (t, here) refl
  | inr f ↦ rw f (all_targets i ids ws hs)
]

-- What the form posts for a secret whose mounts are all targets is read as ids, and stored as its mounts.
pub kept-stored :
    (types : List MountType) (ws : List Workload) (ids : List ℕ)
    → Keyed ws
    → All (λ j. is_target j (targets types ws) ≡ true) ids
    → (m : List ℕ) × (parse_mounts types ws (map some (kept ids (targets types ws)))
        ≡ some (kept ids (targets types ws)))
      × (replace_mounts ws (kept ids (targets types ws)) ≡ some m)
      × ((i : ℕ) → has_mount i m ≡ has_mount i ids)
kept-stored types ws ids keyed all_ =
    let ts = targets types ws in
    let found : All (λ (w : Workload). (find_id w.id ws ≡ some w) × (supports types w.typ ≡ true))
        ts =
      targets-All (λ (w : Workload). find_id w.id ws ≡ some w) types ws (Keyed-found ws keyed) in
    let ready = kept-All (IsReady types ws) ids ts (
      imp-All (λ (w : Workload). (find_id w.id ws ≡ some w) × (supports types w.typ ≡ true))
        (λ (w : Workload). IsReady types ws w.id) ts (λ w h. (w, h.0, h.1)) found) in
    let (m, stored_, same) =
      replace_mounts-stored types ws (kept ids ts) ready
        (kept-AreDistinct ids ts (targets-Keyed types ws keyed)) in
    (
      m,
      parse_mounts-some types ws (kept ids ts) ready,
      stored_,
      λ i. same i ∙ (has_mount-kept i ids ts ∙ all_targets i ids ts all_),
    )
