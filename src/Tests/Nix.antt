-- ===== src/Tests/Nix.antt =====
-- Names, string literals and the apply sequence.
use nixbox.Prelude.{
  All, List, Option, Text, [], arith, codes, false, none, refl, some, true, ℕ, ◌++◌, ◌↔◌, ◌∷◌, ◌≡◌,
  ◌≤◌,
}
use nixbox.Nix.Names.{validate_name, validate_container_name, validate_display_name, utf8_length}
use nixbox.Nix.Names.Rule.{validate_display_name_iff}
use nixbox.Nix.Quote.{nix_str, read_literal, read_literal-nix_str}
use nixbox.Nix.Rebuild.{
  switch, build, Command, flake_lock, flake_update, nixos_rebuild, Pipeline, done, rebuild,
}

validate_display_name_iff_example :
    (validate_display_name (codes "My box") ≡ none)
    ↔ ((utf8_length (codes "My box") ≤ 60) × All (λ c. 32 ≤ c) (codes "My box"))
validate_display_name_iff_example = validate_display_name_iff (codes "My box")

my_box_valid : validate_container_name (codes "my-box") ≡ none
unfolding validate_container_name validate_name
my_box_valid = refl

abbrev sly : Text
sly = codes "a${b\"\n"

read_literal-nix_str_example :
    (body : Text) × (nix_str sly ++ codes ";" ≡ b'"' ∷ body)
    × (read_literal false body ≡ some (sly, codes ";"))
read_literal-nix_str_example =
    read_literal-nix_str sly (codes ";")
      (omega arith, (omega arith, (omega arith, (omega arith, (omega arith, (omega arith, tt))))))

abbrev pipeline : Pipeline
pipeline = record {
  host_flake = codes "/etc/nixos";
  host_attr = codes "box";
  state_dir = codes "/var/lib/nixbox";
  state_input_name = codes "nixbox-state";
  dry_run = true;
}

abbrev all_fine : Command → Option ℕ
all_fine c = some 0

abbrev commands : List Command
commands =
    flake_lock (codes "/var/lib/nixbox")
    ∷ flake_update (codes "nixbox-state") (codes "/etc/nixos")
    ∷ nixos_rebuild build (codes "/etc/nixos") (codes "box")
    ∷ []

dry_run : rebuild all_fine (some 7) pipeline switch ≡ (commands, done (some 7))
unfolding rebuild
dry_run = refl
