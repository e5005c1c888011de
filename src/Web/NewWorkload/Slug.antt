-- ===== src/Web/NewWorkload/Slug.antt =====
-- slugify of web/src/new-workload.ts, whatever Unicode does to the text first.
use nixbox.Prelude.{
  All, All-take, Bool, Bool-cases, Text, [], arith, false, inl, inr, length, length-take, none, not,
  refl, suc, take, take_of_length-le, true, zero, ℕ, ◌&&◌, ◌==◌, ◌∷◌, ◌≡◌, ◌≤◌, ◌⊎◌,
}
use nixbox.Nix.Names.{is_alnum, validate_name}
use nixbox.Nix.Names.Rule.{
  IsLabel, NoLead, NoTrail, IsLabel-of_alnum, alnum_of_label, validate_name_iff,
}
use nixbox.Web.NewWorkload.{is_nil, squash, drop_dashes, trim_dashes, slugify, strip_marks}

-- No two dashes in a row; the flag says that a dash stands before the text.
abbrev pub single_dashes : Bool → Text → Bool
single_dashes after [] = true
single_dashes after (c ∷ s) = not (after && c == b'-') && single_dashes (c == b'-') s

-- A text that slugify leaves alone: a name or nothing.
pub record IsSlug (max : ℕ) (s : Text) : Type 0 where
  pub short : length s ≤ max
  pub labels : All IsLabel s
  pub lead : NoLead s
  pub trail : NoTrail s
  pub single : single_dashes false s ≡ true

dash-IsLabel : IsLabel b'-'
unfolding nixbox.Nix.Names.is_label
dash-IsLabel = refl

squash-labels : (run : Bool) (s : Text) → All IsLabel (squash run s)
unfolding squash
squash-labels run [] = tt
squash-labels run (c ∷ s) =
    ground (arith, squash-labels (not (is_alnum c)) s, IsLabel-of_alnum c, dash-IsLabel)

squash-single : (run : Bool) (s : Text) → single_dashes run (squash run s) ≡ true
unfolding squash
squash-single run [] = refl
squash-single run (c ∷ s) = ground (arith, squash-single (not (is_alnum c)) s, IsLabel-of_alnum c)

single_weaken : (s : Text) → single_dashes true s ≡ true → single_dashes false s ≡ true
single_weaken [] h = refl
single_weaken (c ∷ s) h = ground arith

drop_dashes_lem :
    (s : Text)
    → All IsLabel s
    → single_dashes false s ≡ true
    → All IsLabel (drop_dashes s)
      × NoLead (drop_dashes s)
      × (single_dashes false (drop_dashes s) ≡ true)
unfolding drop_dashes
drop_dashes_lem [] ls h = (tt, tt, refl)
drop_dashes_lem (c ∷ s) ls h = elim (Bool-cases (c == b'-')) [
  | inl dash ↦ rw dash (drop_dashes_lem s ls.1 (single_weaken s (ground arith)))
  | inr other ↦ rw other (ls, ground arith, h)
]

NoLead-take : (n : ℕ) (s : Text) → NoLead s → NoLead (take n s)
NoLead-take zero s h = tt
NoLead-take (suc n) [] h = tt
NoLead-take (suc n) (c ∷ s) h = h

single-take :
    (after : Bool) (n : ℕ) (s : Text)
    → single_dashes after s ≡ true
    → single_dashes after (take n s) ≡ true
single-take after zero s h = refl
single-take after (suc n) [] h = refl
single-take after (suc n) (c ∷ s) h = ground (arith, single-take (c == b'-') n s)

trim_dashes-labels : (s : Text) → All IsLabel s → All IsLabel (trim_dashes s)
unfolding trim_dashes
trim_dashes-labels [] h = tt
trim_dashes-labels (c ∷ s) h = ground (arith, trim_dashes-labels s h.1)

NoLead-trim_dashes : (s : Text) → NoLead s → NoLead (trim_dashes s)
unfolding trim_dashes
NoLead-trim_dashes [] h = tt
NoLead-trim_dashes (c ∷ s) h = ground arith

length-trim_dashes : (s : Text) → length (trim_dashes s) ≤ length s
unfolding trim_dashes
length-trim_dashes [] = omega arith
length-trim_dashes (c ∷ s) = ground (arith, length-trim_dashes s)

NoTrail-cons : (c : ℕ) (s : Text) → NoTrail s → (c == b'-' && is_nil s) ≡ false → NoTrail (c ∷ s)
NoTrail-cons c [] h k = ground arith
NoTrail-cons c (d ∷ s) h k = h

NoTrail-trim_dashes : (s : Text) → NoTrail (trim_dashes s)
unfolding trim_dashes
NoTrail-trim_dashes [] = tt
NoTrail-trim_dashes (c ∷ s) = elim (Bool-cases (c == b'-' && is_nil (trim_dashes s))) [
  | inl last ↦ rw last tt
  | inr kept ↦ rw kept (NoTrail-cons c (trim_dashes s) (NoTrail-trim_dashes s) kept)
]

single-trim_dashes :
    (after : Bool) (s : Text)
    → single_dashes after s ≡ true
    → single_dashes after (trim_dashes s) ≡ true
unfolding trim_dashes
single-trim_dashes after [] h = refl
single-trim_dashes after (c ∷ s) h = ground (arith, single-trim_dashes (c == b'-') s)

-- Whatever the Unicode steps return, slugify gives nothing or at most `max` characters of [a-z0-9-]
-- with no dash at either end and no two dashes in a row.
pub slugify-IsSlug :
    (nfkd lower : Text → Text) (s : Text) (max : ℕ) → IsSlug max (slugify nfkd lower s max)
unfolding slugify
slugify-IsSlug nfkd lower s max =
    let t = squash false (lower (strip_marks (nfkd s))) in
    let (ls, lead, single) = drop_dashes_lem t (squash-labels false _) (squash-single false _) in
    let cut = take max (drop_dashes t) in
    record {
      short = omega (arith, length-trim_dashes cut, length-take max (drop_dashes t));
      labels = trim_dashes-labels cut (All-take IsLabel max (drop_dashes t) ls);
      lead = NoLead-trim_dashes cut (NoLead-take max (drop_dashes t) lead);
      trail = NoTrail-trim_dashes cut;
      single = single-trim_dashes false cut (single-take false max (drop_dashes t) single);
    }

-- A slug within the server's bound is empty or passes ValidateName.
pub validate_name_of_IsSlug :
    {max : ℕ} (s : Text) → max ≤ 63 → IsSlug max s → (s ≡ []) ⊎ (validate_name s ≡ none)
validate_name_of_IsSlug [] le v = inl refl
validate_name_of_IsSlug (c ∷ s) le v = inr (
    (validate_name_iff (c ∷ s)).1 (record {
      nonempty = omega arith;
      short = omega (arith, v.short);
      labels = v.labels;
      lead = v.lead;
      trail = v.trail;
    }))

squash_of_single :
    (run : Bool) (s : Text) → All IsLabel s → single_dashes run s ≡ true → squash run s ≡ s
unfolding squash
squash_of_single run [] ls h = refl
squash_of_single run (c ∷ s) (l, ls) h =
    ground (arith, alnum_of_label c l, IsLabel-of_alnum c, squash_of_single (not (is_alnum c)) s ls)

drop_dashes_of_NoLead : (s : Text) → NoLead s → drop_dashes s ≡ s
unfolding drop_dashes
drop_dashes_of_NoLead [] h = refl
drop_dashes_of_NoLead (c ∷ s) h = ground arith

trim_dashes_of_NoTrail : (s : Text) → NoTrail s → trim_dashes s ≡ s
unfolding trim_dashes
trim_dashes_of_NoTrail [] h = refl
trim_dashes_of_NoTrail (c ∷ []) h = ground arith
trim_dashes_of_NoTrail (c ∷ d ∷ s) h = rw (trim_dashes_of_NoTrail (d ∷ s) h) (ground arith)

label_low : (c : ℕ) → IsLabel c → c ≤ 127
unfolding nixbox.Nix.Names.is_label
label_low c h = ground arith

strip_marks_of_labels : (s : Text) → All IsLabel s → strip_marks s ≡ s
unfolding strip_marks
strip_marks_of_labels [] h = refl
strip_marks_of_labels (c ∷ s) (l, ls) = ground (arith, label_low c l, strip_marks_of_labels s ls)

-- To fit a slug to a cap that it meets changes nothing, if the Unicode steps leave texts of
-- [a-z0-9-] alone.
pub slugify_of_IsSlug :
    (nfkd lower : Text → Text)
    → ((t : Text) → All IsLabel t → nfkd t ≡ t)
    → ((t : Text) → All IsLabel t → lower t ≡ t)
    → (s : Text) (max : ℕ) → IsSlug max s
    → slugify nfkd lower s max ≡ s
unfolding slugify
slugify_of_IsSlug nfkd lower keep_nfkd keep_lower s max v =
    rw
      (
        keep_nfkd s v.labels,
        strip_marks_of_labels s v.labels,
        keep_lower s v.labels,
        squash_of_single false s v.labels v.single,
        drop_dashes_of_NoLead s v.lead,
        take_of_length-le max s v.short,
      )
      (trim_dashes_of_NoTrail s v.trail)
