-- ===== src/Tests/Dialogs.antt =====
-- The secret and flake-input dialogs on concrete rows.
use nixbox.Web.Modals
use nixbox.Web.Modals.{
  Element, Dialogs, click, after_request, set_open, is_open, closest_opener, closed_dialog,
}
use nixbox.Web.Modals.Visit.{run_visit}
use nixbox.Prelude.{List, Text, [], codes, false, inl, inr, none, refl, some, true, ◌++◌, ◌∷◌, ◌≡◌}
use nixbox.Web.Dialogs.{
  Box, SecretForm, SecretRow, SecretEvent, type_value, Labels, FlakeForm, FlakeRow, FlakeEvent,
  type_url, edit_secret,
}

abbrev encode : Text → Text
encode t = t

abbrev labels : Labels
labels = record {
  title_add = codes "Add";
  submit_add = codes "Create";
  title_edit = codes "Edit";
  submit_edit = codes "Save";
  value_keep = codes "unchanged";
}

abbrev boxes : List Box
boxes =
    record { id = codes "4"; checked = false }
    ∷ record { id = codes "12"; checked = true }
    ∷ record { id = codes "1"; checked = true }
    ∷ []

abbrev form : SecretForm
form = record {
  action = codes "/secrets";
  title = [];
  submit_label = [];
  name_value = [];
  name_disabled = false;
  name_required = true;
  value = [];
  value_required = true;
  placeholder = [];
  owner = [];
  group = [];
  mode = [];
  mounts = boxes;
  dialog_open = false;
}

abbrev row : SecretRow
row = record {
  secret = codes "db";
  owner = codes "root";
  group = codes "root";
  mode = codes "0400";
  mounts = codes "4,12";
}

abbrev uses : List SecretEvent
uses =
    SecretEvent.edit row
    ∷ type_value (codes "hunter2")
    ∷ SecretEvent.tick 2
    ∷ SecretEvent.close
    ∷ []

abbrev mounted : List Text
mounted = codes "4" ∷ codes "12" ∷ []

ticked :
    (edit_secret encode labels row form).mounts
    ≡ record { id = codes "4"; checked = true }
      ∷ record { id = codes "12"; checked = true }
      ∷ record { id = codes "1"; checked = false }
      ∷ []
unfolding edit_secret
ticked = refl

abbrev inputs : FlakeForm
inputs = record {
  action = codes "/flakes";
  title = [];
  submit_label = [];
  name_value = [];
  name_disabled = false;
  name_required = true;
  url = [];
  follows = false;
  dialog_open = false;
}

abbrev nixflix : FlakeRow
nixflix = record { input = codes "nixflix"; ref_ = codes "github:x/y"; follows = codes "1" }

abbrev flake_uses : List FlakeEvent
flake_uses = FlakeEvent.add ∷ type_url (codes "github:a/b") ∷ FlakeEvent.tick ∷ []

abbrev plain : Element
plain = record {
  open_dialog = none;
  close_dialog = false;
  close_on_success = false;
  dialog = none;
  lazy = false;
}

abbrev destroy_dialog : Element
destroy_dialog = record plain { dialog = some (codes "destroy-dialog") }

abbrev dialogs : Dialogs
dialogs = (codes "confirm-dialog", false) ∷ (codes "destroy-dialog", false) ∷ []

-- Open the dialog, click in it, have its form refused, see a form that is not marked go through, and
-- cancel.
abbrev visit : List Modals.Event
visit =
    click (plain ∷ destroy_dialog ∷ [])
    ∷ after_request false (plain ∷ destroy_dialog ∷ [])
    ∷ after_request true (plain ∷ destroy_dialog ∷ [])
    ∷ []

run_visit_example :
    let first = click (record plain { open_dialog = some (codes "destroy-dialog") } ∷ []) in
    let last = click (record plain { close_dialog = true } ∷ destroy_dialog ∷ []) in
    (Modals.run dialogs (first ∷ visit) ≡ set_open (codes "destroy-dialog") true dialogs)
    × (Modals.run dialogs (first ∷ visit ++ last ∷ []) ≡ dialogs)
unfolding is_open closest_opener closed_dialog
run_visit_example =
    run_visit (codes "destroy-dialog") dialogs
      (click (record plain { open_dialog = some (codes "destroy-dialog") } ∷ [])) visit
      (click (record plain { close_dialog = true } ∷ destroy_dialog ∷ [])) refl
      (record plain { open_dialog = some (codes "destroy-dialog") }, [], ([], refl, tt, refl), refl)
      (((refl, (refl, tt)), (refl, (refl, tt))), (inl refl, (inr refl, tt)))
      (
        (refl, (refl, tt)),
        (
          record plain { close_dialog = true },
          destroy_dialog ∷ [],
          ([], refl, tt, refl),
          (
            destroy_dialog,
            [],
            (record plain { close_dialog = true } ∷ [], refl, (refl, tt), refl),
            refl,
          ),
        ),
      )
