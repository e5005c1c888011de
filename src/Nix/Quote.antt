-- ===== src/Nix/Quote.antt =====
-- nixStr of internal/nix/flakes.go: string literals in the generated Nix files.
use nixbox.Prelude.{
  All, Bool, Option, Text, [], append_assoc, arith, false, if◌then◌else◌, none, refl, some, true, ℕ,
  ◌&&◌, ◌++◌, ◌==◌, ◌||◌, ◌∷◌, ◌≡◌, ◌≢◌,
}

abbrev pub starts_brace : Text → Bool
starts_brace [] = false
starts_brace (c ∷ s) = c == b'{'

-- The replacer: at each place the first of `\`, `"`, a line break and `${` that fits is replaced. The
-- brace of `${` is written unchanged, here as the next character.
unfoldable pub escape : Text → Text
escape [] = []
escape (c ∷ s) =
    let rest = escape s in
    if c == b'\\'
    then b'\\' ∷ b'\\' ∷ rest
    else if c == b'"'
    then b'\\' ∷ b'"' ∷ rest
    else if c == b'\n'
    then b'\\' ∷ b'n' ∷ rest
    else if c == b'$' && starts_brace s
    then b'\\' ∷ b'$' ∷ rest
    else c ∷ rest

unfoldable pub nix_str : Text → Text
unfolding escape
nix_str s = b'"' ∷ escape s ++ b'"' ∷ []

-- How Nix reads a double-quoted literal, the flag saying that a backslash stands before: the value
-- and the rest, or `none` where no literal ends, where an interpolation `${` starts, and at a bare
-- carriage return, which Nix does not keep.
abbrev pub unescape : ℕ → ℕ
unescape c =
    if c == b'n' then b'\n' else if c == b'r' then b'\r' else if c == b't' then b'\t' else c

abbrev pub put : ℕ → Option (Text × Text) → Option (Text × Text)
put c none = none
put c (some (v, rest)) = some (c ∷ v, rest)

unfoldable pub read_literal : Bool → Text → Option (Text × Text)
read_literal escaped [] = none
read_literal true (c ∷ s) = put (unescape c) (read_literal false s)
read_literal false (c ∷ s) =
    let plain = put c (read_literal false s) in
    let next = read_literal true s in
    if c == b'"'
    then some ([], s)
    else if c == b'\\'
    then next
    else if (c == b'$' && starts_brace s) || c == b'\r'
    then none
    else plain

starts_brace-escape : (s rest : Text) → starts_brace (escape s ++ b'"' ∷ rest) ≡ starts_brace s
unfolding escape
starts_brace-escape [] rest = refl
starts_brace-escape (c ∷ s) rest = ground arith

read_literal-escape :
    (s rest : Text)
    → All (λ c. c ≢ b'\r') s
    → read_literal false (escape s ++ b'"' ∷ rest) ≡ some (s, rest)
unfolding read_literal escape
read_literal-escape [] rest h = refl
read_literal-escape (c ∷ s) rest (h, hs) =
    ground (arith, read_literal-escape s rest hs, starts_brace-escape s rest)

-- What nixStr writes, Nix reads back as the same text, whatever follows the literal: no text of a
-- user ends the literal early or starts an interpolation. The text holds no carriage return.
pub read_literal-nix_str :
    (s rest : Text)
    → All (λ c. c ≢ b'\r') s
    → (body : Text) × (nix_str s ++ rest ≡ b'"' ∷ body) × (read_literal false body ≡ some (s, rest))
unfolding nix_str
read_literal-nix_str s rest h =
    (escape s ++ b'"' ∷ rest, simp append_assoc, read_literal-escape s rest h)
