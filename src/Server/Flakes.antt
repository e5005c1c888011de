-- ===== src/Server/Flakes.antt =====
-- internal/server/handlers_flake.go: the requests that change the flake inputs, and regenerateFlake. A
-- request says what its store call reads from the clock and whether it fails.
pub mod Declared
use nixbox.Nix.Flake.{render_flake}
use nixbox.Prelude.{
  Bool, List, Option, Text, [], false, if◌then◌else◌, map, none, some, text_eq, true, ℕ, ◌∷◌,
}
use nixbox.Nix.Names.{validate_name}
use nixbox.Nix.Ports.{trim_space}
use nixbox.Handlers.{Answer, refused, fault, redirect, bad_request, not_found}
use nixbox.Store.Flakes.{
  delete_flake_input, update_flake_input, mark_flake_input_applied, FlakeInput, find_input,
  create_flake_input,
}

abbrev pub kept_or : List FlakeInput → Option (List FlakeInput) → List FlakeInput × Answer
kept_or fs none = (fs, fault)
kept_or fs (some gs) = (gs, redirect)

-- From FlakeInputByName on.
abbrev pub create_absent :
    Option FlakeInput
    → ℕ
    → (fails : Bool) → (name ref : Text) → Bool
    → List FlakeInput
    → List FlakeInput × Answer
unfolding create_flake_input
create_absent (some f) now fails name ref follows fs = (fs, refused)
create_absent none now true name ref follows fs = (fs, fault)
create_absent none now false name ref follows fs =
    kept_or fs (create_flake_input now name ref follows fs)

abbrev pub create_named :
    ℕ → (fails : Bool) → (name ref : Text) → Bool → List FlakeInput → List FlakeInput × Answer
unfolding find_input create_absent
create_named now fails name ref follows fs = elim (validate_name name) [
  | some _ ↦ (fs, refused)
  | none ↦
      if text_eq ref []
      then (fs, refused)
      else create_absent (find_input name fs) now fails name ref follows fs
]

unfoldable pub handle_flake_create :
    ℕ → (fails : Bool) → (name url : Text) → Bool → List FlakeInput → List FlakeInput × Answer
unfolding create_named trim_space
handle_flake_create now fails name url follows fs =
    create_named now fails (trim_space name) (trim_space url) follows fs

-- lookupFlakeInput, with what a handler does then.
abbrev pub looked_up :
    Option FlakeInput
    → (FlakeInput → List FlakeInput × Answer)
    → List FlakeInput
    → List FlakeInput × Answer
looked_up none go fs = (fs, not_found)
looked_up (some f) go fs = go f

unfoldable pub lookup_flake_input :
    Text → (FlakeInput → List FlakeInput × Answer) → List FlakeInput → List FlakeInput × Answer
unfolding find_input
lookup_flake_input name go fs = elim (validate_name name) [
  | some _ ↦ (fs, bad_request)
  | none ↦ looked_up (find_input name fs) go fs
]

abbrev pub save_found :
    ℕ
    → (fails : Bool) → (ref : Text) → Bool
    → FlakeInput
    → List FlakeInput
    → List FlakeInput × Answer
unfolding update_flake_input
save_found now fails ref follows f fs =
    if text_eq ref []
    then (fs, refused)
    else if fails
    then (fs, fault)
    else (update_flake_input now f.id ref follows fs, redirect)

unfoldable pub handle_flake_save :
    ℕ → (fails : Bool) → (name url : Text) → Bool → List FlakeInput → List FlakeInput × Answer
unfolding lookup_flake_input save_found trim_space
handle_flake_save now fails name url follows fs =
    lookup_flake_input name (λ f. save_found now fails (trim_space url) follows f fs) fs

unfoldable pub handle_flake_delete :
    (fails : Bool) → Text → List FlakeInput → List FlakeInput × Answer
unfolding lookup_flake_input delete_flake_input
handle_flake_delete fails name fs =
    lookup_flake_input name
      (λ f. if fails then (fs, fault) else (delete_flake_input f.id fs, redirect)) fs

-- The loop over appliedInputs.
unfoldable pub mark_inputs : ℕ → List ℕ → List FlakeInput → List FlakeInput
unfolding mark_flake_input_applied
mark_inputs now [] fs = fs
mark_inputs now (id ∷ ids) fs = mark_inputs now ids (mark_flake_input_applied now id fs)

-- The inputs that regenerateFlake renders.
abbrev pub to_nix : FlakeInput → nixbox.Nix.Flake.FlakeInput
to_nix f = record { name = f.name; url = f.url; follows_nixpkgs = f.follows_nixpkgs }

unfoldable pub regenerate_flake : List FlakeInput → (secrets : Bool) → Text
unfolding render_flake
regenerate_flake fs secrets = render_flake (map to_nix fs) secrets

pub data Request : Type 0 where
  create save : ℕ → (fails : Bool) → (name url : Text) → Bool → Request
  delete : (fails : Bool) → Text → Request
  mark : ℕ → List ℕ → Request

unfoldable pub step : List FlakeInput → Request → List FlakeInput
unfolding handle_flake_create handle_flake_save handle_flake_delete mark_inputs
step fs (create now fails name url follows) = (handle_flake_create now fails name url follows fs).0
step fs (save now fails name url follows) = (handle_flake_save now fails name url follows fs).0
step fs (delete fails name) = (handle_flake_delete fails name fs).0
step fs (mark now ids) = mark_inputs now ids fs

unfoldable pub run : List FlakeInput → List Request → List FlakeInput
unfolding step
run fs [] = fs
run fs (r ∷ rs) = run (step fs r) rs
