-- ===== src/Nix/Names/Rule.antt =====
-- The naming rules of internal/nix/stateflake.go and types.go, as their messages word them.
use nixbox.Prelude.{
  ℕ, zero, suc, ◌≤◌, ◌≡◌, refl, ◌≢◌, ◌↔◌, true, false, none, [], ◌∷◌, Text, length, All, arith,
}
use nixbox.Nix.Names.{
  is_alnum, is_label, match_group, match_name, validate_name, validate_container_name, utf8_length,
  has_control, validate_display_name,
}

abbrev pub IsLabel : ℕ → Type 0
IsLabel c = is_label c ≡ true

-- No dash in front.
abbrev pub NoLead : Text → Type 0
NoLead [] = Unit
NoLead (c ∷ s) = c ≢ b'-'

-- No dash at the end.
abbrev pub NoTrail : Text → Type 0
NoTrail [] = Unit
NoTrail (c ∷ []) = c ≢ b'-'
NoTrail (c ∷ d ∷ s) = NoTrail (d ∷ s)

-- "1-max characters of [a-z0-9-], not starting or ending with -"
pub record IsName (max : ℕ) (s : Text) : Type 0 where
  pub nonempty : 1 ≤ length s
  pub short : length s ≤ max
  pub labels : All IsLabel s
  pub lead : NoLead s
  pub trail : NoTrail s

pub IsLabel-of_alnum : (c : ℕ) → is_alnum c ≡ true → (IsLabel c) × (c ≢ b'-')
unfolding is_label
IsLabel-of_alnum c h = ground arith

pub alnum_of_label : (c : ℕ) → IsLabel c → c ≢ b'-' → is_alnum c ≡ true
unfolding is_label
alnum_of_label c h k = ground arith

match_group_sound :
    (n : ℕ) (s : Text)
    → match_group n s ≡ true
    → (1 ≤ length s) × (length s ≤ suc n) × All IsLabel s × NoTrail s
unfolding match_group
match_group_sound n [] h = ground arith
match_group_sound n (c ∷ []) h =
    let (l, d) = IsLabel-of_alnum c h in (omega arith, omega arith, (l, tt), d)
match_group_sound zero (c ∷ d ∷ s) h = ground arith
match_group_sound (suc n) (c ∷ d ∷ s) h =
    let (one, le, ls, t) = match_group_sound n (d ∷ s) (ground arith) in
    (omega arith, omega arith, (ground arith, ls), t)

match_group_complete :
    (n : ℕ) (s : Text)
    → 1 ≤ length s
    → length s ≤ suc n
    → All IsLabel s
    → NoTrail s
    → match_group n s ≡ true
unfolding match_group
match_group_complete n [] one le ls t = absurd (omega arith)
match_group_complete n (c ∷ []) one le ls t = alnum_of_label c ls.0 t
match_group_complete zero (c ∷ d ∷ s) one le ls t = absurd (omega arith)
match_group_complete (suc n) (c ∷ d ∷ s) one le (l, ls) t =
    ground (arith, match_group_complete n (d ∷ s) (omega arith) (omega arith) ls t)

match_name_sound : (n : ℕ) (s : Text) → match_name n s ≡ true → IsName (suc (suc n)) s
unfolding match_name
match_name_sound n [] h = ground arith
match_name_sound n (c ∷ []) h =
    let (l, d) = IsLabel-of_alnum c h in
    record { nonempty = omega arith; short = omega arith; labels = (l, tt); lead = d; trail = d }
match_name_sound n (c ∷ d ∷ s) h =
    let (l, k) = IsLabel-of_alnum c (ground arith) in
    let (one, le, ls, t) = match_group_sound n (d ∷ s) (ground arith) in
    record { nonempty = omega arith; short = omega arith; labels = (l, ls); lead = k; trail = t }

match_name_complete : (n : ℕ) (s : Text) → IsName (suc (suc n)) s → match_name n s ≡ true
unfolding match_name
match_name_complete n [] v = absurd (omega arith)
match_name_complete n (c ∷ []) v = alnum_of_label c v.labels.0 v.lead
match_name_complete n (c ∷ d ∷ s) v = ground (
  arith,
  alnum_of_label c v.labels.0 v.lead,
  match_group_complete n (d ∷ s) (omega arith) (omega arith) v.labels.1 v.trail,
)

-- ValidateName accepts exactly the names of 1 to 63 characters of [a-z0-9-] that neither start nor
-- end with a dash.
pub validate_name_iff : (s : Text) → (validate_name s ≡ none) ↔ IsName 63 s
unfolding validate_name
validate_name_iff s =
    (λ h. match_name_sound 61 s (ground arith), λ v. ground (arith, match_name_complete 61 s v))

-- validateContainerName accepts exactly the names of 1 to 11 characters of [a-z0-9-] that neither
-- start nor end with a dash.
pub validate_container_name_iff : (s : Text) → (validate_container_name s ≡ none) ↔ IsName 11 s
unfolding validate_container_name
validate_container_name_iff s = (
  λ h.
      let v = (validate_name_iff s).0 (ground arith) in
      record {
        nonempty = v.nonempty;
        short = ground arith;
        labels = v.labels;
        lead = v.lead;
        trail = v.trail;
      },
  λ v.
      let w : IsName 63 s = record {
        nonempty = v.nonempty;
        short = omega arith;
        labels = v.labels;
        lead = v.lead;
        trail = v.trail;
      } in
      ground (arith, (validate_name_iff s).1 w),
)

has_control_iff : (s : Text) → (has_control s ≡ false) ↔ All (λ c. 32 ≤ c) s
unfolding has_control
has_control_iff [] = (λ _. tt, λ _. refl)
has_control_iff (c ∷ s) = (
  λ h. (ground arith, (has_control_iff s).0 (ground arith)),
  λ (h, hs). ground (arith, (has_control_iff s).1 hs),
)

-- ValidateDisplayName accepts exactly the labels of at most 60 bytes of UTF-8 that hold no control
-- character below U+0020; the empty label is one of them.
pub validate_display_name_iff :
    (s : Text) → (validate_display_name s ≡ none) ↔ ((utf8_length s ≤ 60) × All (λ c. 32 ≤ c) s)
unfolding validate_display_name
validate_display_name_iff s = (
  λ h. (ground arith, (has_control_iff s).0 (ground arith)),
  λ (short, printable). ground (arith, (has_control_iff s).1 printable),
)
