-- ===== src/I18n/Fallback.antt =====
-- The order in which internal/i18n/i18n.go looks a message up.
use mathlib.Core.Option.{some-injective}
use nixbox.Prelude.{
  Bool-cases, List, Option, Option-cases, Text, [], ap, arith, if◌then◌else◌, inl, inr, map, none,
  refl, some, sym, text_eq, text_eq_sound, true, ℕ, ◌++◌, ◌||◌, ◌∙◌, ◌∷◌, ◌≡◌,
}
use nixbox.I18n.{
  normalize, t, add_code, add_all, join_catalog, find_catalog, default_locale, is_seen, base_lang,
  def, message, Catalog, Localizer,
}

abbrev pub or_else : Option Text → Option Text → Option Text
or_else none o = o
or_else (some m) o = some m

abbrev pub or_text : Text → Option Text → Text
or_text fallback none = fallback
or_text fallback (some m) = m

or_else-none : (o : Option Text) → or_else o none ≡ o
or_else-none none = refl
or_else-none (some m) = refl

or_else_assoc : (a b c : Option Text) → or_else (or_else a b) c ≡ or_else a (or_else b c)
or_else_assoc none b c = refl
or_else_assoc (some m) b c = refl

abbrev pub with_code : Text → Option Catalog → Option (Text × Catalog)
with_code code none = none
with_code code (some cat) = some (code, cat)

abbrev pub message_of : Text → Option (Text × Catalog) → Option Text
message_of key none = none
message_of key (some (code, cat)) = message key cat

abbrev pub code_of : Option (Text × Catalog) → Text → Text
code_of none rest = rest
code_of (some (code, cat)) rest = code

-- The locale that a code stands for, and its catalog: the code's own, or that of its base language.
abbrev pub of_base : List (Text × Catalog) → Text → Option (Text × Catalog)
of_base bundle base = with_code base (find_catalog base bundle)

abbrev pub of_exact : List (Text × Catalog) → Text → Option Catalog → Option (Text × Catalog)
of_exact bundle code (some cat) = some (code, cat)
of_exact bundle code none =
    if text_eq (base_lang code) code then none else of_base bundle (base_lang code)

abbrev pub resolve : List (Text × Catalog) → Text → Option (Text × Catalog)
resolve bundle code =
    if text_eq code [] then none else of_exact bundle code (find_catalog code bundle)

-- A message of the first of the codes whose catalog has it.
abbrev pub first_message : Text → List (Text × Catalog) → List Text → Option Text
first_message key bundle [] = none
first_message key bundle (c ∷ cs) =
    or_else (message_of key (resolve bundle c)) (first_message key bundle cs)

-- The first of the codes that has a catalog, or the default locale.
abbrev pub first_locale : List (Text × Catalog) → List Text → Text
first_locale bundle [] = default_locale
first_locale bundle (c ∷ cs) = code_of (resolve bundle c) (first_locale bundle cs)

abbrev pub found : Text → List Catalog → Option Text
found key [] = none
found key (c ∷ cs) = or_else (message key c) (found key cs)

pub def-found :
    (cs : List Catalog) (key fallback : Text)
    → def cs key fallback ≡ or_text fallback (found key cs)
unfolding def
def-found [] key fallback = refl
def-found (c ∷ cs) key fallback = elim (Option-cases (message key c)) [
  | inl absent ↦ rw (absent, def) (def-found cs key fallback)
  | inr (m, there) ↦ rw (there, def) refl
]

found-append :
    (key : Text) (cs : List Catalog) (c : Catalog)
    → found key (cs ++ c ∷ []) ≡ or_else (found key cs) (message key c)
found-append key [] c = or_else-none (message key c)
found-append key (d ∷ cs) c =
    ap (or_else (message key d)) (found-append key cs c)
    ∙ sym (or_else_assoc (message key d) (found key cs) (message key c))

is_seen-append :
    (code : Text) (cs : List Text) (c : Text)
    → is_seen code (cs ++ c ∷ []) ≡ (is_seen code cs || text_eq c code)
unfolding is_seen
is_seen-append code [] c = ground arith
is_seen-append code (d ∷ cs) c = ground (arith, is_seen-append code cs c)

-- A seen code has a catalog, which has nothing that the catalogs before do not have; there are as many
-- codes as catalogs.
abbrev pub IsCovered : Text → List (Text × Catalog) → Localizer → Type 0
IsCovered key bundle l =
    (code : Text)
    → is_seen code l.seen ≡ true
    → (cat : Catalog) × (find_catalog code bundle ≡ some cat)
      × (found key l.catalogs ≡ none → message key cat ≡ none)

or_else_same : (a b : Option Text) → (a ≡ none → b ≡ none) → a ≡ or_else a b
or_else_same none b h = sym (h refl)
or_else_same (some m) b h = refl

or_else_left : (a b : Option Text) → or_else a b ≡ none → (a ≡ none) × (b ≡ none)
or_else_left none b h = (refl, h)
or_else_left (some m) b h = absurd (cc)

join_catalog-IsCovered :
    (key : Text) (bundle : List (Text × Catalog)) (l : Localizer) (code : Text) (cat : Catalog)
    → IsCovered key bundle l
    → find_catalog code bundle ≡ some cat
    → IsCovered key bundle (join_catalog l code cat)
      × (found key (join_catalog l code cat).catalogs
          ≡ or_else (found key l.catalogs) (message key cat))
unfolding join_catalog
join_catalog-IsCovered key bundle l code cat covered here =
    elim (Bool-cases (is_seen code l.seen)) [
      | inl t ↦
          let (old, there, less) = covered code t in
          let same : old ≡ cat = some-injective _ _ (sym there ∙ here) in
          rw t (
            covered,
            or_else_same (found key l.catalogs) (message key cat)
                (λ e. ap (message key) (sym same) ∙ less e),
          )
      | inr f ↦ rw f (go, found-append key l.catalogs cat)
    ]
  where
    go :
        (c : Text)
        → is_seen c (l.seen ++ code ∷ []) ≡ true
        → (k : Catalog) × (find_catalog c bundle ≡ some k)
          × (found key (l.catalogs ++ cat ∷ []) ≡ none → message key k ≡ none)
    go c h = elim (Bool-cases (is_seen c l.seen)) [
      | inl t ↦
          let (k, there, less) = covered c t in
          (
            k,
            there,
            λ e.
                less
                  (or_else_left (found key l.catalogs) (message key cat)
                    (sym (found-append key l.catalogs cat) ∙ e)).0,
          )
      | inr f ↦
          let own : text_eq code c ≡ true = ground (arith, h, f, is_seen-append c l.seen code) in
          (
            cat,
            ap (λ n. find_catalog n bundle) (sym (text_eq_sound code c own)) ∙ here,
            λ e.
                (or_else_left (found key l.catalogs) (message key cat)
                  (sym (found-append key l.catalogs cat) ∙ e)).1,
          )
    ]

-- What adding a code does to the messages found.
abbrev Adds : Text → List (Text × Catalog) → Localizer → Text → Localizer → Type 0
Adds key bundle l code m =
    IsCovered key bundle m
    × (found key m.catalogs ≡ or_else (found key l.catalogs) (message_of key (resolve bundle code)))

add_code-Adds :
    (key : Text) (bundle : List (Text × Catalog)) (l : Localizer) (code : Text)
    → IsCovered key bundle l
    → Adds key bundle l code (add_code bundle l code)
unfolding add_code
add_code-Adds key bundle l code covered = elim (Bool-cases (text_eq code [])) [
  | inl t ↦ rw t (covered, sym (or_else-none (found key l.catalogs)))
  | inr f ↦ elim (Option-cases (find_catalog code bundle)) [
    | inr (cat, here) ↦ rw (f, here) (join_catalog-IsCovered key bundle l code cat covered here)
    | inl absent ↦ elim (Bool-cases (text_eq (base_lang code) code)) [
      | inl t ↦ rw (f, absent) (rw t (covered, sym (or_else-none (found key l.catalogs))))
      | inr g ↦ elim (Option-cases (find_catalog (base_lang code) bundle)) [
        | inl none_ ↦
            rw (f, absent) (rw (g, none_) (covered, sym (or_else-none (found key l.catalogs))))
        | inr (cat, here) ↦
            rw (f, absent)
              (rw (g, here) (join_catalog-IsCovered key bundle l (base_lang code) cat covered here))
      ]
    ]
  ]
]

module _ (lower : ℕ → ℕ) where
  pub add_all-found :
      (key : Text) (bundle : List (Text × Catalog)) (l : Localizer) (ps : List Text)
      → IsCovered key bundle l
      → found key (add_all lower bundle l ps).catalogs
        ≡ or_else (found key l.catalogs) (first_message key bundle (map (normalize lower) ps))
  unfolding add_all
  add_all-found key bundle l [] covered = sym (or_else-none (found key l.catalogs))
  add_all-found key bundle l (p ∷ ps) covered =
      let code = normalize lower p in
      let (next, finds) = add_code-Adds key bundle l code covered in
      let first = message_of key (resolve bundle code) in
      let rest = first_message key bundle (map (normalize lower) ps) in
      add_all-found key bundle (add_code bundle l code) ps next
      ∙ (ap (λ o. or_else o rest) finds ∙ or_else_assoc (found key l.catalogs) first rest)
