-- ===== src/Nix/Flake.antt =====
-- renderFlake and nixAttrName of internal/nix: the flake.nix of the state flake.
pub mod Declared
use nixbox.Prelude.{
  Bool, List, Text, [], all, codes, false, if◌then◌else◌, leb, ltb, map, not, text_eq, true, ℕ,
  ◌&&◌, ◌++◌, ◌==◌, ◌||◌, ◌∷◌,
}
use nixbox.Nix.Quote.{nix_str}

pub record FlakeInput : Type 0 where
  pub name : Text
  pub url : Text
  pub follows_nixpkgs : Bool

abbrev pub is_letter : ℕ → Bool
is_letter c = (leb 97 c && leb c 122) || ((leb 65 c && leb c 90) || c == 95)

abbrev pub is_name_char : ℕ → Bool
is_name_char c = is_letter c || ((leb 48 c && leb c 57) || (c == 39 || c == 45))

unfoldable pub is_bare : Text → Bool
is_bare [] = false
is_bare (c ∷ cs) = is_letter c && all is_name_char cs

-- nixAttrName
unfoldable pub nix_attr_name : Text → Text
unfolding is_bare
nix_attr_name name = if is_bare name then name else codes "\"" ++ name ++ codes "\""

-- The order of Go's strings.
unfoldable pub text_ltb : Text → Text → Bool
text_ltb xs [] = false
text_ltb [] (y ∷ ys) = true
text_ltb (x ∷ xs) (y ∷ ys) = let rest = text_ltb xs ys in ltb x y || (x == y && rest)

-- sort.Slice by name
unfoldable pub insert_input : FlakeInput → List FlakeInput → List FlakeInput
unfolding text_ltb
insert_input f [] = f ∷ []
insert_input f (g ∷ gs) =
    let rest = insert_input f gs in if text_ltb g.name f.name then g ∷ rest else f ∷ g ∷ gs

unfoldable pub sort_inputs : List FlakeInput → List FlakeInput
unfolding insert_input
sort_inputs [] = []
sort_inputs (f ∷ fs) = insert_input f (sort_inputs fs)

unfoldable pub has_input : Text → List FlakeInput → Bool
has_input name [] = false
has_input name (f ∷ fs) = text_eq f.name name || has_input name fs

unfoldable pub any_follows : List FlakeInput → Bool
any_follows [] = false
any_follows (f ∷ fs) = f.follows_nixpkgs || any_follows fs

-- ownAgenix and needNixpkgs
unfoldable pub own_agenix : List FlakeInput → Bool → Bool
unfolding has_input
own_agenix fs with_agenix = with_agenix && not (has_input (codes "agenix") fs)

unfoldable pub need_nixpkgs : List FlakeInput → Bool → Bool
unfolding own_agenix any_follows
need_nixpkgs fs with_agenix = own_agenix fs with_agenix || any_follows fs

-- What the inputs block declares.
pub data Declaration : Type 0 where
  nixpkgs_pin agenix_pin : Declaration
  input : FlakeInput → Declaration

abbrev pub only : Bool → Declaration → List Declaration
only false d = []
only true d = d ∷ []

unfoldable pub declarations : List FlakeInput → Bool → List Declaration
unfolding sort_inputs own_agenix need_nixpkgs
declarations inputs with_agenix =
    let sorted = sort_inputs inputs in
    only (need_nixpkgs sorted with_agenix) nixpkgs_pin
    ++ only (own_agenix sorted with_agenix) agenix_pin
    ++ map input sorted

unfoldable pub declaration_text : Declaration → Text
unfolding nix_attr_name nix_str
declaration_text nixpkgs_pin = codes "    nixpkgs.url = \"github:NixOS/nixpkgs/nixos-unstable\";\n"
declaration_text agenix_pin =
    codes "    agenix = {\n"
    ++ codes "      url = \"github:ryantm/agenix\";\n"
    ++ codes "      inputs.nixpkgs.follows = \"nixpkgs\";\n"
    ++ codes "      inputs.darwin.follows = \"\";\n"
    ++ codes "      inputs.home-manager.follows = \"\";\n"
    ++ codes "    };\n"
declaration_text (input f) =
    if f.follows_nixpkgs
    then codes "    "
      ++ nix_attr_name f.name
      ++ codes " = { url = "
      ++ nix_str f.url
      ++ codes "; inputs.nixpkgs.follows = \"nixpkgs\"; };\n"
    else codes "    " ++ nix_attr_name f.name ++ codes ".url = " ++ nix_str f.url ++ codes ";\n"

unfoldable pub inputs_text : List Declaration → Text
unfolding declaration_text
inputs_text [] = []
inputs_text (d ∷ ds) = declaration_text d ++ inputs_text ds

abbrev pub base_imports : Bool → Text
base_imports false = codes "[ ./modules/default.nix ]"
base_imports true = codes "[ ./modules/default.nix inputs.agenix.nixosModules.default ]"

unfoldable pub render_flake : List FlakeInput → Bool → Text
unfolding inputs_text declarations nix_str
render_flake inputs with_agenix =
    codes "# Generated by nixbox; do not edit by hand.\n{\n"
    ++ codes "  description = "
    ++ nix_str (codes "nixbox-managed workloads (generated; do not edit by hand)")
    ++ codes ";\n\n"
    ++ codes "  inputs = {\n"
    ++ inputs_text (declarations inputs with_agenix)
    ++ codes "  };\n\n"
    ++ codes "  outputs = { self, ... }@inputs: {\n"
    ++ codes "    nixosModules.default = { ... }: {\n      imports = "
    ++ base_imports with_agenix
    ++ codes " ++ (map\n        (path:\n          let v = import path;\n"
    ++ codes "          in if builtins.isFunction v && (builtins.functionArgs v) ? flakeInputs\n"
    ++ codes "             then v { flakeInputs = inputs; }\n             else v)\n"
    ++ codes "        (builtins.attrValues ((import ./index.nix).hostServices or { })));\n"
    ++ codes "      _module.args.flakeInputs = inputs;\n    };\n  };\n}\n"
