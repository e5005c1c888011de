-- ===== src/Server/Secrets/Form.antt =====
-- parseSecretForm of internal/server/handlers_secrets.go and the types' mounts of internal/nix/types.go.
use nixbox.Prelude.{
  Bool, List, Option, Text, [], all, codes, false, if◌then◌else◌, leb, length, none, not, some,
  text_eq, true, ℕ, ◌&&◌, ◌==◌, ◌||◌, ◌∷◌,
}
use nixbox.Nix.Ports.{trim_space}
use nixbox.Handlers.{replace_crlf}
use nixbox.Store.Workloads.{Workload, find_id}

-- What is read here of a registered type.
pub record MountType : Type 0 where
  pub id : Text
  pub index_key : Text
  pub supports_secret_mounts : Bool

-- nix.Lookup
unfoldable pub lookup_mount : Text → List MountType → Option MountType
lookup_mount id [] = none
lookup_mount id (t ∷ ts) = let rest = lookup_mount id ts in if text_eq t.id id then some t else rest

abbrev pub supports_of : Option MountType → Bool
supports_of none = false
supports_of (some t) = t.supports_secret_mounts

unfoldable pub supports : List MountType → Text → Bool
unfolding lookup_mount
supports types typ = supports_of (lookup_mount typ types)

-- workloadType, which takes an unknown type for a container.
abbrev pub or_container : List MountType → Option MountType → Option MountType
unfolding lookup_mount
or_container types none = lookup_mount (codes "nixos-container") types
or_container types (some t) = some t

unfoldable pub workload_type : List MountType → Text → Option MountType
unfolding lookup_mount or_container
workload_type types typ = or_container types (lookup_mount typ types)

abbrev pub is_lower : ℕ → Bool
is_lower c = leb 97 c && leb c 122

abbrev pub is_unix_char : ℕ → Bool
is_unix_char c = is_lower c || (c == 95 || (c == 45 || (leb 48 c && leb c 57)))

-- unixNameRe
unfoldable pub is_unix_name : Text → Bool
is_unix_name [] = false
is_unix_name (c ∷ cs) = (is_lower c || c == 95) && (all is_unix_char cs && leb (length cs) 31)

-- modeRe
unfoldable pub is_mode : Text → Bool
is_mode cs = all (λ c. leb 48 c && leb c 55) cs && (leb 3 (length cs) && leb (length cs) 4)

-- The posted fields; a mount is as ParseInt reads it.
pub record Posted : Type 0 where
  pub name : Text
  pub owner : Text
  pub group : Text
  pub mode : Text
  pub value : Text
  pub mount : List (Option ℕ)

pub record SecretForm : Type 0 where
  pub owner : Text
  pub group : Text
  pub mode : Text
  pub value : Text
  pub mounts : List ℕ

pub data FormError : Type 0 where
  bad_owner bad_mode bad_mount : FormError

pub data Checked : Type 0 where
  checked : SecretForm → Checked
  unchecked : FormError → Checked

abbrev pub or_default : Text → Text → Text
or_default standard [] = standard
or_default standard (c ∷ cs) = c ∷ cs

abbrev pub keep_mount : Bool → ℕ → Option (List ℕ) → Option (List ℕ)
keep_mount true id (some ids) = some (id ∷ ids)
keep_mount true id none = none
keep_mount false id ids = none

abbrev pub supports_row : List MountType → Option Workload → Bool
unfolding supports
supports_row types none = false
supports_row types (some w) = supports types w.typ

-- The loop over the mounts: `none` for err.bad-mount.
unfoldable pub parse_mounts : List MountType → List Workload → List (Option ℕ) → Option (List ℕ)
unfolding supports find_id
parse_mounts types ws [] = some []
parse_mounts types ws (none ∷ ms) = none
parse_mounts types ws (some id ∷ ms) =
    keep_mount (supports_row types (find_id id ws)) id (parse_mounts types ws ms)

abbrev pub with_mounts : SecretForm → Option (List ℕ) → Checked
with_mounts f none = unchecked bad_mount
with_mounts f (some ids) = checked (record f { mounts = ids })

unfoldable pub parse_secret_form : List MountType → List Workload → Posted → Checked
unfolding is_unix_name is_mode parse_mounts trim_space replace_crlf
parse_secret_form types ws p =
    let f : SecretForm = record {
      owner = or_default (codes "root") (trim_space p.owner);
      group = or_default (codes "root") (trim_space p.group);
      mode = or_default (codes "0400") (trim_space p.mode);
      value = replace_crlf p.value;
      mounts = [];
    } in
    if not (is_unix_name f.owner) || not (is_unix_name f.group)
    then unchecked bad_owner
    else if not (is_mode f.mode)
    then unchecked bad_mode
    else with_mounts f (parse_mounts types ws p.mount)
