-- ===== src/Tests/Secrets.antt =====
-- Concrete runs of the requests that change secrets.
use nixbox.Server.Secrets.Requests.{mark_secrets}
use nixbox.Handlers.{find_file}
use nixbox.Web.Dialogs.{Labels, SecretForm, edit_secret}
use nixbox.Server.Secrets.Dialog.{targets, boxes, submit, row_button}
use nixbox.Server.Secrets.Edited.{save-edit_secret}
use nixbox.Handlers.{redirect}
use nixbox.Prelude.{
  Bool, List, Text, [], arith, codes, false, none, refl, some, true, ℕ, ◌++◌, ◌↔◌, ◌∷◌, ◌≡◌, ◌≢◌,
}
use nixbox.Store.Secrets.{
  find_secret, max_secret, touch_secret, secret_status, has_mount, secret_by_id, Secret,
}
use nixbox.Server.Secrets.{
  handle_secret_save, keeps, prune_secrets, start_apply, Registry, Meets, nowhere,
}
use nixbox.Server.Secrets.Form.{is_mode, is_unix_name, MountType, Posted}
use nixbox.Server.Secrets.Index.{Delivers, mounts_of, HasPair, index_secrets, mounts_of_iff}
use nixbox.Server.Secrets.Requests
use nixbox.Server.Secrets.Whole.{IsSealed}
use nixbox.Server.Secrets.Pruned.{run-IsSealed, run-start_apply}
use nixbox.Server.Secrets.Stamps
use nixbox.Server.Secrets.Badges.{mark_secrets-status}
use nixbox.Nix.Names.{validate_name}
use nixbox.Handlers.{put_file}
use nixbox.Store.Workloads.{find_id, Workload}

abbrev container : MountType
container = record {
  id = codes "nixos-container";
  index_key = codes "containers";
  supports_secret_mounts = true;
}

abbrev web : Workload
web = record {
  id = 1;
  name = codes "web";
  display_name = [];
  typ = codes "nixos-container";
  enabled = true;
  applied_revision_id = none;
}

abbrev token : Secret
token = record {
  id = 4;
  name = codes "token";
  owner = codes "root";
  group = codes "root";
  mode = codes "0400";
  workload_ids = 1 ∷ [];
  created_at = 10;
  updated_at = 10;
  applied_at = some 12;
}

abbrev registry : Registry
registry = record {
  workloads = web ∷ [];
  secrets = token ∷ [];
  ciphertexts = (codes "token", codes "age1") ∷ (codes "old", codes "age0") ∷ [];
  index = [];
}

abbrev meets : ℕ → Bool → Meets
meets now fails = record {
  now = now;
  encrypt = λ value. some (codes "age:" ++ value);
  write_fails = false;
  store_fails = fails;
}

abbrev posted : Text → Text → Posted
posted name value = record {
  name = name;
  owner = [];
  group = [];
  mode = [];
  value = value;
  mount = some 1 ∷ [];
}

-- The creation of `cert` fails after its ciphertext is written; `key` is created and `token` deleted.
abbrev requests : List Requests.Request
requests =
    Requests.create (posted (codes "cert") (codes "x")) (meets 20 true)
    ∷ Requests.create_for (codes "web") (posted (codes "key") (codes "y")) (meets 21 false)
    ∷ Requests.apply nowhere (λ name. false)
    ∷ Requests.delete (codes "token") (meets 22 false)
    ∷ []

registry-IsSealed : IsSealed registry
unfolding find_file
registry-IsSealed = (((codes "age1", refl), tt), tt)

run-IsSealed_example : IsSealed (Requests.run (container ∷ []) registry requests)
run-IsSealed_example = run-IsSealed (container ∷ []) registry requests registry-IsSealed

abbrev after : Registry
after = Requests.run (container ∷ []) registry requests

run-start_apply_example :
    let k = (start_apply (container ∷ []) nowhere (λ name. true) after).0 in
    ((find_file (codes "cert") k.ciphertexts ≢ none) ↔ (keeps (codes "cert") k.secrets ≡ true))
    × (k.index ≡ index_secrets (container ∷ []) k.workloads k.secrets)
unfolding Requests.run Requests.step start_apply prune_secrets validate_name put_file max_secret
run-start_apply_example =
    run-start_apply (container ∷ []) registry requests (λ name. true) (codes "cert")
      registry-IsSealed refl

mounts_of_iff_example :
    HasPair (codes "containers") (codes "web") (mounts_of (container ∷ []) (web ∷ []) (1 ∷ [])) ↔ (
      (id : ℕ) × (has_mount id (1 ∷ []) ≡ true)
      × Delivers (container ∷ []) (find_id id (web ∷ [])) (codes "containers") (codes "web"))
mounts_of_iff_example =
    mounts_of_iff (container ∷ []) (web ∷ []) (1 ∷ []) (codes "containers") (codes "web")

-- The secret is edited at 15, after the snapshot of a rebuild that ends at 20.
abbrev edits : List Stamps.Edit
edits = Stamps.update 15 4 (codes "app") (codes "app") (codes "0440") [] [] ∷ []

abbrev edited : Secret
edited = record token {
  owner = codes "app";
  group = codes "app";
  mode = codes "0440";
  workload_ids = [];
  updated_at = 15;
}

mark_secrets-status_example :
    (m : Secret) × (secret_by_id 4
        (mark_secrets 20 (4 ∷ []) (Stamps.apply_edits (token ∷ []) edits))
      ≡ some m)
    × (secret_status m ≡ codes "applied")
    × ((k : Secret) × (secret_by_id 4
            (touch_secret 30 4 (mark_secrets 20 (4 ∷ []) (Stamps.apply_edits (token ∷ []) edits)))
          ≡ some k)
        × (secret_status k ≡ codes "pending"))
unfolding Stamps.apply_edits secret_by_id has_mount
mark_secrets-status_example =
    mark_secrets-status 20 30 (token ∷ []) edits (4 ∷ []) 4 edited
      (((omega arith, omega arith), tt)) ((omega arith, tt)) refl (omega arith)

abbrev labels : Labels
labels = record {
  title_add = [];
  submit_add = [];
  title_edit = [];
  submit_edit = [];
  value_keep = [];
}

-- The dialog after another secret was typed into it.
abbrev dialog : SecretForm
dialog = record {
  action = [];
  title = [];
  submit_label = [];
  name_value = codes "other";
  name_disabled = false;
  name_required = true;
  value = codes "x";
  value_required = true;
  placeholder = [];
  owner = codes "app";
  group = [];
  mode = [];
  mounts = boxes (λ w. false) (targets (container ∷ []) (web ∷ []));
  dialog_open = false;
}

save-edit_secret_example :
    (ids : List ℕ) × (handle_secret_save
        (container ∷ [])
        (codes "token")
        (submit (edit_secret (λ t. t) labels (row_button token) dialog))
        (meets 40 false)
        registry
      ≡ (
        record registry { secrets = record token { workload_ids = ids; updated_at = 40 } ∷ [] },
        redirect,
      ))
    × ((id : ℕ) → has_mount id ids ≡ has_mount id (1 ∷ []))
unfolding find_secret targets is_unix_name is_mode validate_name
save-edit_secret_example =
    save-edit_secret (container ∷ []) (λ t. t) labels token dialog (λ w. false) (meets 40 false)
      registry (tt, tt) (omega arith, tt) refl refl refl refl refl (refl, tt) refl refl
