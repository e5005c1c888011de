-- ===== src/Nix/Names.antt =====
-- The names that reach the file system and the Nix evaluator: nameRe, ValidateName and
-- ValidateDisplayName of internal/nix/stateflake.go, validateContainerName of internal/nix/types.go.
-- A text is the list of its code points.
pub mod Rule
use nixbox.Prelude.{
  ℕ, zero, suc, ◌+◌, Bool, true, false, ◌&&◌, ◌||◌, Option, none, some, List, [], ◌∷◌, Text, leb,
  ltb, ◌==◌, length, if◌then◌else◌,
}

-- The error values, without the wording of their messages.
pub data NameError : Type 0 where
  invalid_name : Text → NameError
  container_too_long : Text → NameError
  display_too_long : ℕ → NameError
  display_control : NameError

-- [a-z0-9]
unfoldable pub is_alnum : ℕ → Bool
is_alnum c = (leb b'a' c && leb c b'z') || (leb b'0' c && leb c b'9')

-- [a-z0-9-]
unfoldable pub is_label : ℕ → Bool
unfolding is_alnum
is_label c = is_alnum c || c == b'-'

-- [a-z0-9-]{0,n}[a-z0-9]$
unfoldable pub match_group : ℕ → Text → Bool
unfolding is_label
match_group n [] = false
match_group n (c ∷ []) = is_alnum c
match_group zero (c ∷ d ∷ s) = false
match_group (suc n) (c ∷ d ∷ s) = is_label c && match_group n (d ∷ s)

-- ^[a-z0-9]([a-z0-9-]{0,n}[a-z0-9])?$
unfoldable pub match_name : ℕ → Text → Bool
unfolding match_group
match_name n [] = false
match_name n (c ∷ []) = is_alnum c
match_name n (c ∷ d ∷ s) = is_alnum c && match_group n (d ∷ s)

-- `none` is the nil error.
unfoldable pub validate_name : Text → Option NameError
unfolding match_name
validate_name name = if match_name 61 name then none else some (invalid_name name)

unfoldable pub validate_container_name : Text → Option NameError
validate_container_name name = elim (validate_name name) [
  | some err ↦ some err
  | none ↦ if ltb 11 (length name) then some (container_too_long name) else none
]

-- The bytes of a code point in UTF-8, which Go's len counts.
unfoldable pub utf8_width : ℕ → ℕ
utf8_width c = if ltb c 0x80 then 1 else if ltb c 0x800 then 2 else if ltb c 0x10000 then 3 else 4

unfoldable pub utf8_length : Text → ℕ
unfolding utf8_width
utf8_length [] = 0
utf8_length (c ∷ s) = utf8_width c + utf8_length s

unfoldable pub has_control : Text → Bool
has_control [] = false
has_control (r ∷ s) = (r == b'\n' || (r == b'\r' || (r == b'\t' || ltb r 0x20))) || has_control s

unfoldable pub validate_display_name : Text → Option NameError
unfolding utf8_length has_control
validate_display_name name =
    if ltb 60 (utf8_length name)
    then some (display_too_long (utf8_length name))
    else if has_control name
    then some display_control
    else none
