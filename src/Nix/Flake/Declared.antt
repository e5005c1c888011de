-- ===== src/Nix/Flake/Declared.antt =====
-- The names that renderFlake of internal/nix/flakes.go declares.
use mathlib.Core.Path.{subst}
use nixbox.Prelude.{
  Bool, Bool-cases, List, Text, [], ap, ap₂, arith, codes, false, if◌then◌else◌, inl, inr, map, not,
  refl, suc, text_eq, text_eq_sound, true, ℕ, ◌&&◌, ◌++◌, ◌+◌, ◌||◌, ◌↔◌, ◌∙◌, ◌∷◌, ◌≡◌, ◌≤◌,
}
use nixbox.Nix.Flake.{
  only, own_agenix, any_follows, need_nixpkgs, nixpkgs_pin, agenix_pin, input, input, text_ltb,
  sort_inputs, has_input, Declaration, insert_input, declarations, FlakeInput,
}

abbrev pub declaration_name : Declaration → Text
declaration_name nixpkgs_pin = codes "nixpkgs"
declaration_name agenix_pin = codes "agenix"
declaration_name (input f) = f.name

-- How often a name is in a list.
abbrev pub count : Text → List Text → ℕ
count n [] = 0
count n (m ∷ ms) = if text_eq m n then suc (count n ms) else count n ms

abbrev pub names : List FlakeInput → List Text
names fs = map (λ (f : FlakeInput). f.name) fs

abbrev pub declared : List FlakeInput → Bool → List Text
declared fs with_agenix = map declaration_name (declarations fs with_agenix)

-- No name is there twice.
abbrev pub AreDistinct : List Text → Type 0
AreDistinct ms = (n : Text) → count n ms ≤ 1

count-insert :
    (n : Text) (f : FlakeInput) (fs : List FlakeInput)
    → count n (names (insert_input f fs)) ≡ count n (f.name ∷ names fs)
unfolding insert_input
count-insert n f [] = refl
count-insert n f (g ∷ gs) = elim (Bool-cases (text_ltb g.name f.name)) [
  | inl t ↦ rw t (ground (arith, count-insert n f gs))
  | inr k ↦ rw k refl
]

count-sort :
    (n : Text) (fs : List FlakeInput) → count n (names (sort_inputs fs)) ≡ count n (names fs)
unfolding sort_inputs
count-sort n [] = refl
count-sort n (f ∷ fs) = count-insert n f (sort_inputs fs) ∙ ground (arith, count-sort n fs)

has_input_iff :
    (n : Text) (fs : List FlakeInput) → (has_input n fs ≡ true) ↔ (1 ≤ count n (names fs))
unfolding has_input
has_input_iff n [] = ground arith
has_input_iff n (f ∷ fs) = ground (arith, has_input_iff n fs)

has_input-sort : (n : Text) (fs : List FlakeInput) → has_input n (sort_inputs fs) ≡ has_input n fs
has_input-sort n fs =
    ground (arith, count-sort n fs, has_input_iff n fs, has_input_iff n (sort_inputs fs))

any_follows-insert :
    (f : FlakeInput) (fs : List FlakeInput)
    → any_follows (insert_input f fs) ≡ (f.follows_nixpkgs || any_follows fs)
unfolding insert_input any_follows
any_follows-insert f [] = refl
any_follows-insert f (g ∷ gs) = elim (Bool-cases (text_ltb g.name f.name)) [
  | inl t ↦ rw t (ground (arith, any_follows-insert f gs))
  | inr k ↦ rw k refl
]

any_follows-sort : (fs : List FlakeInput) → any_follows (sort_inputs fs) ≡ any_follows fs
unfolding sort_inputs any_follows
any_follows-sort [] = refl
any_follows-sort (f ∷ fs) =
    any_follows-insert f (sort_inputs fs) ∙ ap (λ b. f.follows_nixpkgs || b) (any_follows-sort fs)

own_agenix-sort :
    (fs : List FlakeInput) (w : Bool) → own_agenix (sort_inputs fs) w ≡ own_agenix fs w
unfolding own_agenix
own_agenix-sort fs w = ap (λ b. w && not b) (has_input-sort (codes "agenix") fs)

need_nixpkgs-sort :
    (fs : List FlakeInput) (w : Bool) → need_nixpkgs (sort_inputs fs) w ≡ need_nixpkgs fs w
unfolding need_nixpkgs
need_nixpkgs-sort fs w = ap₂ (λ a b. a || b) (own_agenix-sort fs w) (any_follows-sort fs)

abbrev bit : Bool → ℕ
bit false = 0
bit true = 1

map-names : (fs : List FlakeInput) → map declaration_name (map input fs) ≡ names fs
map-names [] = refl
map-names (f ∷ fs) = ap (λ ms. f.name ∷ ms) (map-names fs)

count-pins :
    (n : Text) (a b : Bool) (ds : List Declaration)
    → count n (map declaration_name (only a nixpkgs_pin ++ only b agenix_pin ++ ds))
      ≡ bit (a && text_eq (codes "nixpkgs") n)
        + bit (b && text_eq (codes "agenix") n)
        + count n (map declaration_name ds)
count-pins n false false ds = ground arith
count-pins n true false ds = ground arith
count-pins n false true ds = ground arith
count-pins n true true ds = ground arith

bits-first : (a b : Bool) (k : ℕ) → bit (a && true) + bit (b && false) + k ≡ bit a + k
bits-first false false k = refl
bits-first false true k = refl
bits-first true false k = refl
bits-first true true k = refl

bits-second : (a b : Bool) (k : ℕ) → bit (a && false) + bit (b && true) + k ≡ bit b + k
bits-second false false k = refl
bits-second false true k = refl
bits-second true false k = refl
bits-second true true k = refl

bits-none : (a b : Bool) (k : ℕ) → bit (a && false) + bit (b && false) + k ≡ k
bits-none false false k = omega arith
bits-none false true k = omega arith
bits-none true false k = omega arith
bits-none true true k = omega arith

count-declared :
    (n : Text) (fs : List FlakeInput) (w : Bool)
    → count n (declared fs w)
      ≡ bit (need_nixpkgs fs w && text_eq (codes "nixpkgs") n)
        + bit (own_agenix fs w && text_eq (codes "agenix") n)
        + count n (names fs)
unfolding declarations
count-declared n fs w =
    rw (need_nixpkgs-sort fs w, own_agenix-sort fs w)
      (count-pins n (need_nixpkgs fs w) (own_agenix fs w) (map input (sort_inputs fs))
        ∙ ap
            (λ k.
              bit (need_nixpkgs fs w && text_eq (codes "nixpkgs") n)
              + bit (own_agenix fs w && text_eq (codes "agenix") n)
              + k)
            (ap (count n) (map-names (sort_inputs fs)) ∙ count-sort n fs))

declared-nixpkgs :
    (fs : List FlakeInput) (w : Bool)
    → count (codes "nixpkgs") (declared fs w)
      ≡ bit (need_nixpkgs fs w) + count (codes "nixpkgs") (names fs)
declared-nixpkgs fs w =
    count-declared (codes "nixpkgs") fs w
    ∙ bits-first (need_nixpkgs fs w) (own_agenix fs w) (count (codes "nixpkgs") (names fs))

declared-agenix :
    (fs : List FlakeInput) (w : Bool)
    → count (codes "agenix") (declared fs w)
      ≡ bit (own_agenix fs w) + count (codes "agenix") (names fs)
declared-agenix fs w =
    count-declared (codes "agenix") fs w
    ∙ bits-second (need_nixpkgs fs w) (own_agenix fs w) (count (codes "agenix") (names fs))

declared-other :
    (n : Text) (fs : List FlakeInput) (w : Bool)
    → text_eq (codes "nixpkgs") n ≡ false
    → text_eq (codes "agenix") n ≡ false
    → count n (declared fs w) ≡ count n (names fs)
declared-other n fs w f g =
    count-declared n fs w
    ∙ rw (f, g) (bits-none (need_nixpkgs fs w) (own_agenix fs w) (count n (names fs)))

own_agenix_iff :
    (fs : List FlakeInput) (w : Bool) → own_agenix fs w ≡ (w && not (has_input (codes "agenix") fs))
unfolding own_agenix
own_agenix_iff fs w = refl

-- Inputs whose names differ, and whether there are secrets: the names that the flake declares differ
-- exactly if no input named `nixpkgs` stands beside a pin of nixpkgs that the flake declares; with
-- secrets agenix is declared exactly once; and if an input follows nixpkgs, or nixbox declares agenix,
-- nixpkgs is declared.
pub declarations-AreDistinct :
    (fs : List FlakeInput) (with_agenix : Bool)
    → AreDistinct (names fs)
    → (AreDistinct (declared fs with_agenix)
        ↔ ((need_nixpkgs fs with_agenix && has_input (codes "nixpkgs") fs) ≡ false))
      × (with_agenix ≡ true → count (codes "agenix") (declared fs with_agenix) ≡ 1)
      × ((any_follows fs || own_agenix fs with_agenix) ≡ true
          → 1 ≤ count (codes "nixpkgs") (declared fs with_agenix))
unfolding need_nixpkgs
declarations-AreDistinct fs w apart =
    let nix = declared-nixpkgs fs w in
    let age = declared-agenix fs w in
    let has_nix = has_input_iff (codes "nixpkgs") fs in
    let has_age = has_input_iff (codes "agenix") fs in
    let own = own_agenix_iff fs w in
    (
      (
        λ differ. let one = differ (codes "nixpkgs") in ground (arith, nix, has_nix, one),
        λ clear n. elim (Bool-cases (text_eq (codes "nixpkgs") n)) [
          | inl t ↦
              let same = text_eq_sound (codes "nixpkgs") n t in
              let few = apart (codes "nixpkgs") in
              subst (λ m. count m (declared fs w) ≤ 1) same
                (ground (arith, nix, has_nix, few, clear))
          | inr f ↦ elim (Bool-cases (text_eq (codes "agenix") n)) [
            | inl t ↦
                let same = text_eq_sound (codes "agenix") n t in
                let few = apart (codes "agenix") in
                subst (λ m. count m (declared fs w) ≤ 1) same
                  (ground (arith, age, has_age, few, own))
            | inr g ↦
                let few = apart n in
                let here = declared-other n fs w f g in ground (arith, here, few)
          ]
        ],
      ),
      λ secrets.
          let few = apart (codes "agenix") in ground (arith, age, has_age, own, few, secrets),
      λ follows. ground (arith, nix, follows),
    )
