-- ===== src/Auth/Redirect.antt =====
-- isLocalURL and safeNext of internal/server/handlers_auth.go: where a login may lead. A text is the
-- list of its bytes.
use nixbox.Prelude.{
  Bool, Text, [], arith, codes, false, if◌then◌else◌, ltb, not, refl, true, ◌&&◌, ◌==◌, ◌||◌, ◌∷◌,
  ◌≡◌, ◌≢◌,
}

unfoldable pub has_prefix : Text → Text → Bool
has_prefix s [] = true
has_prefix [] (c ∷ p) = false
has_prefix (d ∷ s) (c ∷ p) = d == c && has_prefix s p

unfoldable pub has_control : Text → Bool
has_control [] = false
has_control (r ∷ s) = (ltb r 0x20 || r == 0x7f) || has_control s

unfoldable pub is_local_url : Text → Bool
unfolding has_prefix has_control
is_local_url next =
    if has_control next
    then false
    else has_prefix next (codes "/")
      && not (has_prefix next (codes "//"))
      && not (has_prefix next (b'/' ∷ b'\\' ∷ []))

unfoldable pub safe_next : Text → Text
unfolding is_local_url
safe_next next = if is_local_url next then next else codes "/"

-- A browser reads "\" as "/" and drops tabs and line breaks.
abbrev pub browser_reads : Text → Text
browser_reads [] = []
browser_reads (c ∷ s) =
    let rest = browser_reads s in
    if c == b'\t' || (c == b'\n' || c == b'\r')
    then rest
    else if c == b'\\'
    then b'/' ∷ rest
    else c ∷ rest

-- An absolute path of the same site: one slash, and no second one behind it.
abbrev pub IsSamePath : Text → Type 0
IsSamePath [] = ⊥
IsSamePath (c ∷ []) = c ≡ b'/'
IsSamePath (c ∷ d ∷ s) = (c ≡ b'/') × (d ≢ b'/')

-- Wherever the login form says to go next, the redirect target, as a browser reads it, is a path of
-- this site: it begins with exactly one slash.
pub safe_next-IsSamePath : (next : Text) → IsSamePath (browser_reads (safe_next next))
unfolding safe_next
safe_next-IsSamePath [] = refl
safe_next-IsSamePath (c ∷ []) = ground arith
safe_next-IsSamePath (c ∷ d ∷ s) = ground arith
