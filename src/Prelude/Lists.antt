-- ===== src/Prelude/Lists.antt =====
-- Lists measured and indexed by native numbers, under the library's names, and predicates on them.
use Prim.Native.Nat.{ℕ, zero, suc, ◌+◌, ◌-◌, ◌≤◌, ◌<◌, min}
use mathlib.Core.Path.{◌≡◌, refl, ap, sym, subst}
use mathlib.Core.Bool.{Bool, true, ◌&&◌}
use mathlib.Core.List.{List, [], ◌∷◌, ◌++◌, map}
use mathlib.Core.Option.{Option, none, some, some-injective}
use native.Mathlib.Omega.{arith}

module _ {ℓ} {A : Type ℓ} where
  abbrev pub length : List A → ℕ
  length [] = 0
  length (x ∷ xs) = suc (length xs)

  abbrev pub get_elem? : List A → ℕ → Option A
  get_elem? [] i = none
  get_elem? (x ∷ xs) zero = some x
  get_elem? (x ∷ xs) (suc i) = get_elem? xs i

  abbrev pub take : ℕ → List A → List A
  take zero xs = []
  take (suc n) [] = []
  take (suc n) (x ∷ xs) = x ∷ take n xs

  abbrev pub drop : ℕ → List A → List A
  drop zero xs = xs
  drop (suc n) [] = []
  drop (suc n) (x ∷ xs) = drop n xs

  abbrev pub all : (A → Bool) → List A → Bool
  all p [] = true
  all p (x ∷ xs) = p x && all p xs

  pub length-append : (xs ys : List A) → length (xs ++ ys) ≡ length xs + length ys
  length-append [] ys = omega arith
  length-append (x ∷ xs) ys = omega (arith, length-append xs ys)

  pub length-take : (n : ℕ) (xs : List A) → length (take n xs) ≡ min n (length xs)
  length-take zero xs = omega arith
  length-take (suc n) [] = omega arith
  length-take (suc n) (x ∷ xs) = omega (arith, length-take n xs)

  pub length-drop : (n : ℕ) (xs : List A) → length (drop n xs) ≡ length xs - n
  length-drop zero xs = omega arith
  length-drop (suc n) [] = omega arith
  length-drop (suc n) (x ∷ xs) = omega (arith, length-drop n xs)

  pub take_of_length-le : (n : ℕ) (xs : List A) → length xs ≤ n → take n xs ≡ xs
  take_of_length-le zero xs h = go xs h
    where
      go : (ys : List A) → length ys ≤ 0 → [] ≡ ys
      go [] le = refl
      go (y ∷ ys) le = absurd (omega arith)
  take_of_length-le (suc n) [] le = refl
  take_of_length-le (suc n) (y ∷ ys) le = cc (take_of_length-le n ys (omega arith))

pub length-map {ℓ κ} :
    {A : Type ℓ} {B : Type κ} (f : A → B) (xs : List A) → length (map f xs) ≡ length xs
length-map f [] = refl
length-map f (x ∷ xs) = ap suc (length-map f xs)

-- A predicate by recursion, which computes to tuples.
abbrev pub All {ℓ κ} : {A : Type ℓ} → (A → Type κ) → List A → Type κ
All P [] = Unit
All P (x ∷ xs) = P x × All P xs

module _ {ℓ κ} {A : Type ℓ} (P : A → Type κ) where
  pub All-append : (xs ys : List A) → All P xs → All P ys → All P (xs ++ ys)
  All-append [] ys hx hy = hy
  All-append (x ∷ xs) ys (h, hx) hy = (h, All-append xs ys hx hy)

  pub All-take : (n : ℕ) (xs : List A) → All P xs → All P (take n xs)
  All-take zero xs h = tt
  All-take (suc n) [] h = tt
  All-take (suc n) (x ∷ xs) (h, hs) = (h, All-take n xs hs)

abbrev pub update_at {ℓ} : {A : Type ℓ} → (A → A) → ℕ → List A → List A
update_at f n [] = []
update_at f zero (x ∷ xs) = f x ∷ xs
update_at f (suc n) (x ∷ xs) = x ∷ update_at f n xs

module _ {ℓ κ} {A : Type ℓ} (P : A → Type κ) (f : A → A) where
  pub All-update_at :
      ((x : A) → P x → P (f x)) → (n : ℕ) (xs : List A) → All P xs → All P (update_at f n xs)
  All-update_at keep n [] h = tt
  All-update_at keep zero (x ∷ xs) (h, hs) = (keep x h, hs)
  All-update_at keep (suc n) (x ∷ xs) (h, hs) = (h, All-update_at keep n xs hs)

  pub All-update_at_elem :
      (n : ℕ) (xs : List A) {x : A}
      → get_elem? xs n ≡ some x
      → P (f x)
      → All P xs
      → All P (update_at f n xs)
  All-update_at_elem n [] e p h = tt
  All-update_at_elem zero (x ∷ xs) e p (h, hs) =
      (subst (λ y. P (f y)) (sym (some-injective _ _ e)) p, hs)
  All-update_at_elem (suc n) (x ∷ xs) e p (h, hs) = (h, All-update_at_elem n xs e p hs)

module _ {ℓ κ} {A : Type ℓ} (P : A → Type κ) where
  pub All-get_elem? : (n : ℕ) (xs : List A) {x : A} → get_elem? xs n ≡ some x → All P xs → P x
  All-get_elem? n [] e h = cc
  All-get_elem? zero (y ∷ xs) e (h, hs) = subst P (some-injective _ _ e) h
  All-get_elem? (suc n) (y ∷ xs) e (h, hs) = All-get_elem? n xs e hs

pub get_elem?-of_lt {ℓ} :
    {A : Type ℓ} (xs : List A) (i : ℕ) → i < length xs → (x : A) × (get_elem? xs i ≡ some x)
get_elem?-of_lt [] i h = absurd (omega arith)
get_elem?-of_lt (x ∷ xs) zero h = (x, refl)
get_elem?-of_lt (x ∷ xs) (suc i) h = get_elem?-of_lt xs i (omega arith)

module _ {ℓ} {A : Type ℓ} where
  pub take-append_length : (xs ys : List A) → take (length xs) (xs ++ ys) ≡ xs
  take-append_length [] ys = refl
  take-append_length (x ∷ xs) ys = ap (◌∷◌ x) (take-append_length xs ys)

  pub drop-append_length : (xs ys : List A) → drop (length xs) (xs ++ ys) ≡ ys
  drop-append_length [] ys = refl
  drop-append_length (x ∷ xs) ys = drop-append_length xs ys

pub imp-All {ℓ κ μ} :
    {A : Type ℓ} (P : A → Type κ) (Q : A → Type μ) (xs : List A)
    → ((x : A) → P x → Q x)
    → All P xs
    → All Q xs
imp-All P Q [] h hs = tt
imp-All P Q (x ∷ xs) h (p, hs) = (h x p, imp-All P Q xs h hs)

pub map-All {ℓ κ μ ν} :
    {A : Type ℓ} {B : Type κ} (P : A → Type μ) (Q : B → Type ν) (f : A → B) (xs : List A)
    → ((x : A) → P x → Q (f x))
    → All P xs
    → All Q (map f xs)
map-All P Q f [] h hs = tt
map-All P Q f (x ∷ xs) h (p, hs) = (h x p, map-All P Q f xs h hs)

pub and-All {ℓ κ μ} :
    {A : Type ℓ} (P : A → Type κ) (Q : A → Type μ) (xs : List A)
    → All P xs
    → All Q xs
    → All (λ x. P x × Q x) xs
and-All P Q [] h g = tt
and-All P Q (x ∷ xs) (h, hs) (g, gs) = ((h, g), and-All P Q xs hs gs)
