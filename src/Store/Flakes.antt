-- ===== src/Store/Flakes.antt =====
-- internal/store/flakes.go: the flake_inputs table, as written through the clock that a call reads. Faults
-- of the database itself are left out.
use nixbox.Prelude.{
  Bool, List, Option, Text, [], codes, if◌then◌else◌, leb, map, none, some, suc, text_eq, ℕ, ◌==◌,
  ◌∷◌,
}
use nixbox.Store.Secrets.{is_applied}

pub record FlakeInput : Type 0 where
  pub id : ℕ
  pub name : Text
  pub url : Text
  pub follows_nixpkgs : Bool
  pub created_at : ℕ
  pub updated_at : ℕ
  pub applied_at : Option ℕ

-- FlakeInput.Status
unfoldable pub input_status : FlakeInput → Text
unfolding is_applied
input_status f = if is_applied f.applied_at f.updated_at then codes "locked" else codes "pending"

unfoldable pub find_input : Text → List FlakeInput → Option FlakeInput
find_input name [] = none
find_input name (f ∷ fs) =
    let rest = find_input name fs in if text_eq f.name name then some f else rest

unfoldable pub max_input : List FlakeInput → ℕ
max_input [] = 0
max_input (f ∷ fs) = let rest = max_input fs in if leb rest f.id then f.id else rest

abbrev pub create_input_row :
    ℕ → (name url : Text) → Bool → Option FlakeInput → List FlakeInput → Option (List FlakeInput)
create_input_row now name url follows (some f) fs = none
create_input_row now name url follows none fs = some (
    record {
      id = suc (max_input fs);
      name = name;
      url = url;
      follows_nixpkgs = follows;
      created_at = now;
      updated_at = now;
      applied_at = none;
    }
    ∷ fs)

-- CreateFlakeInput, which fails on a name that is taken.
unfoldable pub create_flake_input :
    ℕ → (name url : Text) → Bool → List FlakeInput → Option (List FlakeInput)
unfolding find_input
create_flake_input now name url follows fs =
    create_input_row now name url follows (find_input name fs) fs

abbrev pub on_input : (FlakeInput → FlakeInput) → ℕ → FlakeInput → FlakeInput
on_input g id f = if f.id == id then g f else f

-- UpdateFlakeInput
unfoldable pub update_flake_input : ℕ → ℕ → (url : Text) → Bool → List FlakeInput → List FlakeInput
update_flake_input now id url follows fs =
    map (on_input (λ f. record f { url = url; follows_nixpkgs = follows; updated_at = now }) id) fs

-- MarkFlakeInputApplied
unfoldable pub mark_flake_input_applied : ℕ → ℕ → List FlakeInput → List FlakeInput
mark_flake_input_applied now id fs = map (on_input (λ f. record f { applied_at = some now }) id) fs

-- DeleteFlakeInput
unfoldable pub delete_flake_input : ℕ → List FlakeInput → List FlakeInput
delete_flake_input id [] = []
delete_flake_input id (f ∷ fs) =
    let rest = delete_flake_input id fs in if f.id == id then rest else f ∷ rest
