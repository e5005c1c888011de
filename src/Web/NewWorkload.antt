-- ===== src/Web/NewWorkload.antt =====
-- web/src/new-workload.ts: the ID of the new-workload form, derived from the display name. A text is
-- the list of its UTF-16 code units. `String.normalize("NFKD")` and `toLowerCase` are parameters.
pub mod Slug
pub mod Form
use nixbox.Prelude.{
  ℕ, zero, suc, ◌≡◌, Bool, true, false, not, ◌&&◌, ◌||◌, Option, none, some, List, [], ◌∷◌, Text,
  codes, leb, ◌==◌, take, text_eq, if◌then◌else◌,
}
use nixbox.Nix.Names.{is_alnum}

abbrev pub is_nil : Text → Bool
is_nil [] = true
is_nil (c ∷ s) = false

-- .replace(/[\u0300-\u036f]/g, "")
unfoldable pub strip_marks : Text → Text
strip_marks [] = []
strip_marks (c ∷ s) =
    let rest = strip_marks s in if leb 0x300 c && leb c 0x36f then rest else c ∷ rest

-- .replace(/[^a-z0-9]+/g, "-"); the flag says that the run before `s` is already replaced.
unfoldable pub squash : Bool → Text → Text
squash run [] = []
squash run (c ∷ s) =
    let rest = squash (not (is_alnum c)) s in
    if is_alnum c then c ∷ rest else if run then rest else b'-' ∷ rest

-- .replace(/^-+/, "")
unfoldable pub drop_dashes : Text → Text
drop_dashes [] = []
drop_dashes (c ∷ s) = let rest = drop_dashes s in if c == b'-' then rest else c ∷ s

-- .replace(/-+$/, "")
unfoldable pub trim_dashes : Text → Text
trim_dashes [] = []
trim_dashes (c ∷ s) = let rest = trim_dashes s in if c == b'-' && is_nil rest then [] else c ∷ rest

-- The elements and attributes that the listeners read and write: the ID input `nw-name` (`none` in
-- `auto` is the absent data-auto) and the text of `nw-name-hint`.
pub record NameInput : Type 0 where
  pub value : Text
  pub auto : Option Text
  pub max_length : ℕ
  pub pattern : Text
  pub hint : Option Text

-- A type radio with its data attributes; `[]` is an absent data-name-pattern.
pub record Radio : Type 0 where
  pub name : Text
  pub name_pattern : Text
  pub name_maxlen : ℕ
  pub name_hint : Text

-- What the user does: types into the display name, types into the ID, picks a radio.
pub data Event : Type 0 where
  display : Text → Event
  name : Text → Event
  pick : Radio → Event

-- `value === data-auto`
abbrev pub is_auto : NameInput → Bool
is_auto n = elim n.auto [ none ↦ false | some a ↦ text_eq n.value a ]

module _ (nfkd lower : Text → Text) where
  unfoldable pub slugify : Text → ℕ → Text
  unfolding strip_marks squash drop_dashes trim_dashes
  slugify s max = trim_dashes (take max (drop_dashes (squash false (lower (strip_marks (nfkd s))))))

  -- The input listener, for the display name.
  unfoldable pub on_display : Text → NameInput → NameInput
  on_display text n =
      if not (is_nil n.value) && not (is_auto n)
      then n
      else let derived = slugify text n.max_length in
        record n { value = derived; auto = some derived }

  -- The input listener, for the ID, whose value the user has just changed.
  unfoldable pub on_name : Text → NameInput → NameInput
  on_name typed n = record n { value = typed; auto = none }

  -- The end of the change listener: a derived ID is fitted to the new cap.
  unfoldable pub refit : NameInput → NameInput
  refit n =
      if not (is_nil n.value) && is_auto n
      then (let derived = slugify n.value n.max_length in
          record n { value = derived; auto = some derived })
      else n

  -- The change listener.
  unfoldable pub on_pick : Radio → NameInput → NameInput
  unfolding refit
  on_pick radio n =
      if not (text_eq radio.name (codes "type")) || is_nil radio.name_pattern
      then n
      else refit (record n {
        pattern = radio.name_pattern;
        max_length = radio.name_maxlen;
        hint = elim n.hint [ none ↦ none | some _ ↦ some radio.name_hint ];
      })

  unfoldable pub step : NameInput → Event → NameInput
  unfolding on_display on_name on_pick
  step n (display text) = on_display text n
  step n (name typed) = on_name typed n
  step n (pick radio) = on_pick radio n

  unfoldable pub run : NameInput → List Event → NameInput
  unfolding step
  run n [] = n
  run n (e ∷ es) = run (step n e) es
