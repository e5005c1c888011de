-- ===== src/Web/NewWorkload/Form.antt =====
-- The derived ID over a whole session with the form: typing, hand edits and changes of type.
use nixbox.Prelude.{
  All, Bool-cases, List, Option, Text, [], arith, codes, false, inl, inr, none, not, refl, some,
  sym, text_eq, text_eq_iff, ℕ, ◌&&◌, ◌||◌, ◌∙◌, ◌∷◌, ◌≡◌, ◌≢◌, ◌≤◌, ◌⊎◌,
}
use nixbox.Nix.Names.{validate_name}
use nixbox.Web.NewWorkload.{
  NameInput, Radio, Event, display, name, pick, is_nil, is_auto, refit, on_display, on_name,
  on_pick, step, run,
}
use nixbox.Web.NewWorkload.Slug.{IsSlug, slugify-IsSlug, validate_name_of_IsSlug}

-- While data-auto is set, the ID is the derived value, which fits the current cap.
abbrev IsDerived : Option Text → Text → ℕ → Type 0
IsDerived none value max = Unit
IsDerived (some a) value max = (value ≡ a) × IsSlug max a

-- The caps that the radios carry are within the server's bound.
abbrev pub HasCap : Event → Type 0
HasCap (display text) = Unit
HasCap (name typed) = Unit
HasCap (pick radio) = radio.name_maxlen ≤ 63

abbrev pub NotByHand : Event → Type 0
NotByHand (display text) = Unit
NotByHand (name typed) = ⊥
NotByHand (pick radio) = Unit

IsSlug-nil : (max : ℕ) → IsSlug max []
IsSlug-nil max = record { short = omega arith; labels = tt; lead = tt; trail = tt; single = refl }

kept_IsDerived :
    (auto : Option Text) (value : Text) (old max : ℕ)
    → IsDerived auto value old
    → (not (is_nil value) && elim auto [ none ↦ false | some a ↦ text_eq value a ]) ≡ false
    → IsDerived auto value max
kept_IsDerived none value old max d h = tt
kept_IsDerived (some a) [] old max (e, s) h = (e, rw (← e) (IsSlug-nil max))
kept_IsDerived (some a) (c ∷ v) old max (e, s) h = cc ((text_eq_iff (c ∷ v) a).1 e, h)

module _ (nfkd lower : Text → Text) where
  abbrev Holds : NameInput → Type 0
  Holds n = IsDerived n.auto n.value n.max_length × (n.max_length ≤ 63)

  on_display-Holds : (text : Text) (n : NameInput) → Holds n → Holds (on_display nfkd lower text n)
  unfolding on_display
  on_display-Holds text n (d, cap) = elim (Bool-cases (not (is_nil n.value) && not (is_auto n))) [
    | inl kept ↦ rw kept (d, cap)
    | inr derive ↦ rw derive ((refl, slugify-IsSlug nfkd lower text n.max_length), cap)
  ]

  -- A pick that changes the cap keeps the ID derived.
  refit-IsDerived :
      (n : NameInput)
      → (old : ℕ) → IsDerived n.auto n.value old
      → IsDerived
          (refit nfkd lower n).auto
          (refit nfkd lower n).value
          (refit nfkd lower n).max_length
  unfolding refit
  refit-IsDerived n old d = elim (Bool-cases (not (is_nil n.value) && is_auto n)) [
    | inl derive ↦ rw derive (refl, slugify-IsSlug nfkd lower n.value n.max_length)
    | inr kept ↦ rw kept (kept_IsDerived n.auto n.value old n.max_length d kept)
  ]

  max_length-refit : (n : NameInput) → (refit nfkd lower n).max_length ≡ n.max_length
  unfolding refit
  max_length-refit n = ground arith

  on_pick-Holds :
      (radio : Radio) (n : NameInput)
      → radio.name_maxlen ≤ 63
      → Holds n
      → Holds (on_pick nfkd lower radio n)
  unfolding on_pick
  on_pick-Holds radio n le (d, cap) =
      elim (Bool-cases (not (text_eq radio.name (codes "type")) || is_nil radio.name_pattern)) [
        | inl skipped ↦ rw skipped (d, cap)
        | inr picked ↦ rw picked (refit-IsDerived _ n.max_length d, rw (max_length-refit _) le)
      ]

  step-Holds : (n : NameInput) (e : Event) → HasCap e → Holds n → Holds (step nfkd lower n e)
  unfolding step
  step-Holds n (display text) c h = on_display-Holds text n h
  step-Holds n (name typed) c h = (tt, h.1)
  step-Holds n (pick radio) c h = on_pick-Holds radio n c h

  run-Holds :
      (n : NameInput) (es : List Event) → All HasCap es → Holds n → Holds (run nfkd lower n es)
  unfolding run
  run-Holds n [] cs h = h
  run-Holds n (e ∷ es) (c, cs) h = run-Holds (step nfkd lower n e) es cs (step-Holds n e c h)

derived_of_Holds :
    (auto : Option Text) (value a : Text) (max : ℕ)
    → max ≤ 63
    → IsDerived auto value max
    → auto ≡ some a
    → (value ≡ a) × ((a ≡ []) ⊎ (validate_name a ≡ none))
derived_of_Holds none value a max cap d e = cc
derived_of_Holds (some b) value a max cap (same, slug) e =
    let b-a : b ≡ a = cc in (same ∙ b-a, validate_name_of_IsSlug a cap (rw b-a at slug))

-- A form that starts with no derived ID: after any session, as long as the ID is marked as derived
-- it equals the mark, and it is empty or passes the server's ValidateName, whatever the display
-- name was and however the types were switched, if every cap is at most 63.
pub run-derived :
    (nfkd lower : Text → Text) (n : NameInput) (es : List Event) (a : Text)
    → n.auto ≡ none
    → n.max_length ≤ 63
    → All HasCap es
    → (run nfkd lower n es).auto ≡ some a
    → ((run nfkd lower n es).value ≡ a) × ((a ≡ []) ⊎ (validate_name a ≡ none))
run-derived nfkd lower n es a fresh cap cs e =
    let start : IsDerived n.auto n.value n.max_length = rw fresh tt in
    let (d, le) = run-Holds nfkd lower n es cs (start, cap) in derived_of_Holds _ _ a _ le d e

step_by_hand :
    (nfkd lower : Text → Text) (n : NameInput) (e : Event)
    → NotByHand e
    → n.auto ≡ none
    → n.value ≢ []
    → ((step nfkd lower n e).auto ≡ none) × ((step nfkd lower n e).value ≡ n.value)
unfolding step
step_by_hand nfkd lower n (display text) k none_ ne = ground arith
step_by_hand nfkd lower n (name typed) k none_ ne = absurd k
step_by_hand nfkd lower n (pick radio) k none_ ne = ground arith

-- A hand-typed ID survives everything but another edit by hand: display-name edits and type switches
-- leave it as it is, and it stays unmarked.
pub run_by_hand :
    (nfkd lower : Text → Text) (n : NameInput) (typed : Text) (es : List Event)
    → typed ≢ []
    → All NotByHand es
    → ((run nfkd lower n (name typed ∷ es)).auto ≡ none)
      × ((run nfkd lower n (name typed ∷ es)).value ≡ typed)
unfolding run step
run_by_hand nfkd lower n typed es ne ks = go (on_name nfkd lower typed n) es ks start ne
  where
    start : (on_name nfkd lower typed n).auto ≡ none
    start = refl

    go :
        (m : NameInput) (es : List Event)
        → All NotByHand es
        → m.auto ≡ none
        → m.value ≢ []
        → ((run nfkd lower m es).auto ≡ none) × ((run nfkd lower m es).value ≡ m.value)
    go m [] ks a ne = (a, refl)
    go m (e ∷ es) (k, ks) a ne =
        let (a', v) = step_by_hand nfkd lower m e k a ne in
        let (b, w) = go (step nfkd lower m e) es ks a' (λ q. ne (sym v ∙ q)) in (b, w ∙ v)
