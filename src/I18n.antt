-- ===== src/I18n.antt =====
-- internal/i18n/i18n.go with the localizer of internal/server/server.go: the catalogs that a message is
-- looked up in. unicode.ToLower, ParseFloat and what compares its results are parameters; the arguments
-- of a message are left out.
pub mod Fallback
pub mod Preferred
use nixbox.Prelude.{
  Bool, List, Option, Text, [], codes, false, if◌then◌else◌, map, none, some, text_eq, ℕ, ◌++◌,
  ◌==◌, ◌||◌, ◌∷◌,
}
use nixbox.Nix.Ports.{trim_space}

abbrev pub Catalog : Type 0
Catalog = List (Text × Text)

abbrev pub default_locale : Text
default_locale = codes "en"

unfoldable pub message : Text → Catalog → Option Text
message key [] = none
message key ((k, m) ∷ ms) = let rest = message key ms in if text_eq k key then some m else rest

unfoldable pub find_catalog : Text → List (Text × Catalog) → Option Catalog
find_catalog code [] = none
find_catalog code ((c, cat) ∷ cs) =
    let rest = find_catalog code cs in if text_eq c code then some cat else rest

abbrev pub is_separator : ℕ → Bool
is_separator c = c == 45 || c == 95

-- What stands before the first `-` or `_`, or `none` if there is neither.
unfoldable pub before_separator : Text → Option Text
before_separator [] = none
before_separator (c ∷ cs) =
    let rest = before_separator cs in
    if is_separator c then some [] else elim rest [ none ↦ none | some b ↦ some (c ∷ b) ]

abbrev pub or_code : Text → Option Text → Text
or_code code none = code
or_code code (some []) = code
or_code code (some (c ∷ cs)) = c ∷ cs

-- baseLang
unfoldable pub base_lang : Text → Text
unfolding before_separator
base_lang code = or_code code (before_separator code)

-- The Localizer with the codes that it has seen, both in the order of their addition.
pub record Localizer : Type 0 where
  pub locale : Text
  pub catalogs : List Catalog
  pub seen : List Text

abbrev pub fresh : Localizer
fresh = record { locale = default_locale; catalogs = []; seen = [] }

unfoldable pub is_seen : Text → List Text → Bool
is_seen code [] = false
is_seen code (c ∷ cs) = text_eq c code || is_seen code cs

abbrev pub or_locale : List Catalog → Text → Text → Text
or_locale [] locale code = code
or_locale (c ∷ cs) locale code = locale

abbrev pub join_catalog : Localizer → Text → Catalog → Localizer
unfolding is_seen
join_catalog l code cat = if is_seen code l.seen then l else record {
  locale = or_locale l.catalogs l.locale code;
  catalogs = l.catalogs ++ cat ∷ [];
  seen = l.seen ++ code ∷ [];
}

abbrev pub add_base : Localizer → Text → Option Catalog → Localizer
unfolding join_catalog
add_base l code none = l
add_base l code (some cat) = join_catalog l code cat

abbrev pub add_exact : List (Text × Catalog) → Localizer → Text → Option Catalog → Localizer
unfolding join_catalog add_base base_lang find_catalog
add_exact bundle l code none =
    if text_eq (base_lang code) code
    then l
    else add_base l (base_lang code) (find_catalog (base_lang code) bundle)
add_exact bundle l code (some cat) = join_catalog l code cat

-- The function add of Bundle.Localizer, of a code that is normalized.
unfoldable pub add_code : List (Text × Catalog) → Localizer → Text → Localizer
unfolding add_exact find_catalog
add_code bundle l code =
    if text_eq code [] then l else add_exact bundle l code (find_catalog code bundle)

-- Def, without arguments.
unfoldable pub def : List Catalog → (key fallback : Text) → Text
unfolding message
def [] key fallback = fallback
def (c ∷ cs) key fallback =
    let rest = def cs key fallback in elim (message key c) [ none ↦ rest | some m ↦ m ]

-- T
unfoldable pub t : Localizer → Text → Text
unfolding def
t l key = def l.catalogs key key

module _ (lower : ℕ → ℕ) where
  unfoldable pub normalize : Text → Text
  unfolding trim_space
  normalize s = map lower (trim_space s)

  unfoldable pub add_all : List (Text × Catalog) → Localizer → List Text → Localizer
  unfolding add_code normalize
  add_all bundle l [] = l
  add_all bundle l (p ∷ ps) = add_all bundle (add_code bundle l (normalize p)) ps

  -- Bundle.Localizer
  unfoldable pub localizer : List (Text × Catalog) → List Text → Localizer
  unfolding add_all
  localizer bundle prefs = add_all bundle fresh (prefs ++ default_locale ∷ [])
