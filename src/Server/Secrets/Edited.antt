-- ===== src/Server/Secrets/Edited.antt =====
-- A secret that is opened in the Edit dialog of web/src/dialogs.ts and saved as it is by
-- handleSecretSave of internal/server/handlers_secrets.go.
use nixbox.Prelude.{
  All, Bool, List, Text, [], all, and_iff, ap, arith, codes, false, leb, length, map, none, refl,
  some, true, ℕ, ◌&&◌, ◌<◌, ◌==◌, ◌^◌, ◌||◌, ◌∙◌, ◌∷◌, ◌≡◌,
}
use nixbox.Nix.Names.{validate_name}
use nixbox.Nix.Ports.{decimal, trim_left, trim_right, trim_space, is_space}
use nixbox.Handlers.{replace_crlf, redirect}
use nixbox.Handlers.Keys.{Keyed}
use nixbox.Store.Workloads.{Workload}
use nixbox.Store.Secrets.{has_mount, on_id, find_secret, update_secret, Secret}
use nixbox.Server.Secrets.{checked, lookup_secret, handle_secret_save, Registry, Meets}
use nixbox.Server.Secrets.Form.{
  parse_mounts, Posted, parse_secret_form, is_lower, or_default, is_mode, is_unix_char,
  is_unix_name, MountType,
}
use nixbox.Server.Secrets.Dialog.{
  checked_ids-set_mounts, kept, checked_ids, map-decimal-IsId, targets, boxes, submit, row_button,
}
use nixbox.Server.Secrets.Delivered.{targets-small, is_target, kept-stored}
use nixbox.Web.Dialogs.{set_mounts, SecretForm, Labels, edit_secret}
use nixbox.Web.Dialogs.Mounts.{mounts-edit_secret}

abbrev IsPlain : ℕ → Type 0
IsPlain c = is_space c ≡ false

trim_right_plain : (s : Text) → All IsPlain s → trim_right s ≡ s
unfolding trim_right
trim_right_plain [] h = refl
trim_right_plain (c ∷ s) (h, hs) = rw h (ap (λ r. c ∷ r) (trim_right_plain s hs))

trim_space_plain : (s : Text) → All IsPlain s → trim_space s ≡ s
unfolding trim_space trim_left
trim_space_plain [] h = trim_right_plain [] h
trim_space_plain (c ∷ s) (h, hs) = rw h (trim_right_plain (c ∷ s) (h, hs))

unix_char-IsPlain : (c : ℕ) → is_unix_char c ≡ true → IsPlain c
unfolding is_space
unix_char-IsPlain c h = ground arith

octal-IsPlain : (c : ℕ) → (leb 48 c && leb c 55) ≡ true → IsPlain c
unfolding is_space
octal-IsPlain c h = ground arith

all-IsPlain :
    (p : ℕ → Bool) (s : Text) → ((c : ℕ) → p c ≡ true → IsPlain c) → all p s ≡ true → All IsPlain s
all-IsPlain p [] plain h = tt
all-IsPlain p (c ∷ s) plain h =
    let (first, rest) = (and_iff (p c) (all p s)).0 h in (plain c first, all-IsPlain p s plain rest)

-- A value that is kept by the defaults and the trimming of the form.
abbrev Survives : Text → Text → Type 0
Survives standard s = or_default standard (trim_space s) ≡ s

unix_name-Survives : (s : Text) → is_unix_name s ≡ true → Survives (codes "root") s
unfolding is_unix_name
unix_name-Survives [] h = cc
unix_name-Survives (c ∷ s) h =
    let plain : All IsPlain (c ∷ s) = (
      unix_char-IsPlain c (ground arith),
      all-IsPlain is_unix_char s unix_char-IsPlain
          ((and_iff (all is_unix_char s) (leb (length s) 31)).0
            ((and_iff (is_lower c || c == 95) _).0 h).1).0,
    ) in
    ap (or_default (codes "root")) (trim_space_plain (c ∷ s) plain)

mode-Survives : (s : Text) → is_mode s ≡ true → Survives (codes "0400") s
unfolding is_mode
mode-Survives [] h = absurd (cc)
mode-Survives (c ∷ s) h =
    ap (or_default (codes "0400"))
      (trim_space_plain (c ∷ s) (all-IsPlain _ (c ∷ s) octal-IsPlain ((and_iff _ _).0 h).0))

-- The secret as the form posts it back.
abbrev posted_form : Secret → List ℕ → nixbox.Server.Secrets.Form.SecretForm
posted_form s ids = record {
  owner = s.owner;
  group = s.group;
  mode = s.mode;
  value = [];
  mounts = ids;
}

parse_secret_form-same :
    (types : List MountType) (ws : List Workload) (s : Secret) (p : Posted) (ids : List ℕ)
    → is_unix_name s.owner ≡ true
    → is_unix_name s.group ≡ true
    → is_mode s.mode ≡ true
    → p.owner ≡ s.owner
    → p.group ≡ s.group
    → p.mode ≡ s.mode
    → p.value ≡ []
    → parse_mounts types ws p.mount ≡ some ids
    → parse_secret_form types ws p ≡ checked (posted_form s ids)
unfolding parse_secret_form replace_crlf
parse_secret_form-same types ws s p ids own grp mode e1 e2 e3 e4 mounts =
    let o : or_default (codes "root") (trim_space p.owner) ≡ s.owner =
      ap (λ x. or_default (codes "root") (trim_space x)) e1 ∙ unix_name-Survives s.owner own in
    let g : or_default (codes "root") (trim_space p.group) ≡ s.group =
      ap (λ x. or_default (codes "root") (trim_space x)) e2 ∙ unix_name-Survives s.group grp in
    let m : or_default (codes "0400") (trim_space p.mode) ≡ s.mode =
      ap (λ x. or_default (codes "0400") (trim_space x)) e3 ∙ mode-Survives s.mode mode in
    rw (o, g, m, own, grp, mode, mounts, e4) refl

-- A secret with an owner, a group and a mode that the form takes, whose mounts are all workloads that
-- the page offers, is opened in the Edit dialog, whatever the dialog showed before, and saved without a
-- change. The request succeeds; it changes no file and no other row, and of the secret only the time
-- of the change, and so the badge: owner, group and mode stay, and so does the set of its mounts.
pub save-edit_secret :
    (types : List MountType) (encode : Text → Text) (labels : Labels) (s : Secret) (f : SecretForm)
    (on : Workload → Bool) (m : Meets) (g : Registry)
    → Keyed g.workloads
    → All (λ (w : Workload). w.id < 2 ^ 63) g.workloads
    → validate_name s.name ≡ none
    → find_secret s.name g.secrets ≡ some s
    → is_unix_name s.owner ≡ true
    → is_unix_name s.group ≡ true
    → is_mode s.mode ≡ true
    → All (λ id. is_target id (targets types g.workloads) ≡ true) s.workload_ids
    → f.mounts ≡ boxes on (targets types g.workloads)
    → m.store_fails ≡ false
    → (ids : List ℕ) × (handle_secret_save types s.name
          (submit (edit_secret encode labels (row_button s) f))
          m
          g
        ≡ (
          record g {
            secrets =
                map
                  (on_id
                    (λ r. record r {
                      owner = s.owner;
                      group = s.group;
                      mode = s.mode;
                      workload_ids = ids;
                      updated_at = m.now;
                    })
                    s.id)
                  g.secrets;
          },
          redirect,
        ))
      × ((id : ℕ) → has_mount id ids ≡ has_mount id s.workload_ids)
unfolding handle_secret_save lookup_secret update_secret edit_secret submit
save-edit_secret types encode labels s f on m g keyed small valid there own grp mode all_ shown ok =
    let ts = targets types g.workloads in
    let form = edit_secret encode labels (row_button s) f in
    let (ids, parses, stores, same) = kept-stored types g.workloads s.workload_ids keyed all_ in
    let boxed : form.mounts ≡ set_mounts (map decimal s.workload_ids) (boxes on ts) =
      mounts-edit_secret encode labels (row_button s) f (map decimal s.workload_ids) refl
        (map-decimal-IsId s.workload_ids)
      ∙ ap (set_mounts (map decimal s.workload_ids)) shown in
    let posts : checked_ids form.mounts ≡ map some (kept s.workload_ids ts) =
      ap checked_ids boxed
      ∙ checked_ids-set_mounts s.workload_ids on ts (targets-small types g.workloads small) in
    let reads =
      parse_secret_form-same types g.workloads s (submit form) (kept s.workload_ids ts) own grp mode
        refl refl refl refl (ap (parse_mounts types g.workloads) posts ∙ parses) in
    (ids, rw (valid, lookup_secret) (rw there (rw reads (rw ok (rw stores refl)))), same)
