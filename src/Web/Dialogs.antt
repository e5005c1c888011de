-- ===== src/Web/Dialogs.antt =====
-- web/src/dialogs.ts, the dialogs for secrets and flake inputs, each of which serves Add and Edit. The
-- fields start empty and the boxes unchecked, as web/templates/ has them; that is what form.reset()
-- goes back to. Focus is left out.
pub mod Reopen
pub mod Mounts
use nixbox.Prelude.{
  Bool, List, Text, [], codes, false, if◌then◌else◌, map, not, text_eq, true, update_at, ℕ, ◌++◌,
  ◌==◌, ◌||◌, ◌∷◌,
}

-- A checkbox `mount`: its value and whether it is checked.
pub record Box : Type 0 where
  pub id : Text
  pub checked : Bool

pub record SecretForm : Type 0 where
  pub action : Text
  pub title : Text
  pub submit_label : Text
  pub name_value : Text
  pub name_disabled : Bool
  pub name_required : Bool
  pub value : Text
  pub value_required : Bool
  pub placeholder : Text
  pub owner : Text
  pub group : Text
  pub mode : Text
  pub mounts : List Box
  pub dialog_open : Bool

-- The data attributes of an Edit button.
pub record SecretRow : Type 0 where
  pub secret : Text
  pub owner : Text
  pub group : Text
  pub mode : Text
  pub mounts : Text

-- The texts that the dialogs carry in their data attributes.
pub record Labels : Type 0 where
  pub title_add : Text
  pub submit_add : Text
  pub title_edit : Text
  pub submit_edit : Text
  pub value_keep : Text

abbrev pub check_box : Bool → Box → Box
check_box on b = record b { checked = on }

unfoldable pub has_id : Text → List Text → Bool
has_id id [] = false
has_id id (x ∷ ids) = text_eq id x || has_id id ids

-- setMounts(ids)
unfoldable pub set_mounts : List Text → List Box → List Box
unfolding has_id
set_mounts ids = map (λ (b : Box). check_box (has_id b.id ids) b)

-- split(",")
abbrev pub onto_first : ℕ → List Text → List Text
onto_first c [] = (c ∷ []) ∷ []
onto_first c (w ∷ ws) = (c ∷ w) ∷ ws

unfoldable pub split_commas : Text → List Text
split_commas [] = [] ∷ []
split_commas (c ∷ s) =
    let rest = split_commas s in if c == b',' then [] ∷ rest else onto_first c rest

-- d.mounts ? d.mounts.split(",") : []
unfoldable pub mount_ids : Text → List Text
unfolding split_commas
mount_ids [] = []
mount_ids (c ∷ s) = split_commas (c ∷ s)

-- form.reset()
abbrev pub reset_secret : SecretForm → SecretForm
reset_secret f = record f {
  name_value = [];
  value = [];
  owner = [];
  group = [];
  mode = [];
  mounts = map (check_box false) f.mounts;
}

-- The form of the flake inputs.
pub record FlakeForm : Type 0 where
  pub action : Text
  pub title : Text
  pub submit_label : Text
  pub name_value : Text
  pub name_disabled : Bool
  pub name_required : Bool
  pub url : Text
  pub follows : Bool
  pub dialog_open : Bool

pub record FlakeRow : Type 0 where
  pub input : Text
  pub ref_ : Text
  pub follows : Text

abbrev pub reset_flake : FlakeForm → FlakeForm
reset_flake f = record f { name_value = []; url = []; follows = false }

-- The user presses Add or the Edit button of a row, types into a field, ticks a box, or closes the
-- dialog.
pub data SecretEvent : Type 0 where
  add close : SecretEvent
  edit : SecretRow → SecretEvent
  type_name type_value type_owner type_group type_mode : Text → SecretEvent
  tick : ℕ → SecretEvent

pub data FlakeEvent : Type 0 where
  add close tick : FlakeEvent
  edit : FlakeRow → FlakeEvent
  type_name type_url : Text → FlakeEvent

-- `encode` is encodeURIComponent.
module _ (encode : Text → Text) (labels : Labels) where
  -- The click listener, for [data-add-secret].
  unfoldable pub add_secret : SecretForm → SecretForm
  unfolding set_mounts
  add_secret f =
      let r = reset_secret f in
      record r {
        action = codes "/secrets";
        title = labels.title_add;
        submit_label = labels.submit_add;
        name_disabled = false;
        name_required = true;
        value_required = true;
        placeholder = [];
        mounts = set_mounts [] r.mounts;
        dialog_open = true;
      }

  -- The click listener, for [data-edit-secret].
  unfoldable pub edit_secret : SecretRow → SecretForm → SecretForm
  unfolding set_mounts mount_ids
  edit_secret d f =
      let r = reset_secret f in
      record r {
        action = codes "/secrets/" ++ encode d.secret ++ codes "/save";
        title = labels.title_edit;
        submit_label = labels.submit_edit;
        name_value = d.secret;
        name_disabled = true;
        name_required = false;
        value_required = false;
        placeholder = labels.value_keep;
        owner = d.owner;
        group = d.group;
        mode = d.mode;
        mounts = set_mounts (mount_ids d.mounts) r.mounts;
        dialog_open = true;
      }

  unfoldable pub add_input : FlakeForm → FlakeForm
  add_input f = record (reset_flake f) {
    action = codes "/flakes";
    title = labels.title_add;
    submit_label = labels.submit_add;
    name_disabled = false;
    name_required = true;
    dialog_open = true;
  }

  unfoldable pub edit_input : FlakeRow → FlakeForm → FlakeForm
  edit_input d f = record (reset_flake f) {
    action = codes "/flakes/" ++ encode d.input ++ codes "/save";
    title = labels.title_edit;
    submit_label = labels.submit_edit;
    name_value = d.input;
    name_disabled = true;
    name_required = false;
    url = d.ref_;
    follows = text_eq d.follows (codes "1");
    dialog_open = true;
  }

  -- The browser keeps what is typed out of a disabled field.
  unfoldable pub secret_step : SecretForm → SecretEvent → SecretForm
  unfolding add_secret edit_secret
  secret_step f SecretEvent.add = add_secret f
  secret_step f SecretEvent.close = record f { dialog_open = false }
  secret_step f (SecretEvent.edit d) = edit_secret d f
  secret_step f (SecretEvent.type_name s) =
      if f.name_disabled then f else record f { name_value = s }
  secret_step f (type_value s) = record f { value = s }
  secret_step f (type_owner s) = record f { owner = s }
  secret_step f (type_group s) = record f { group = s }
  secret_step f (type_mode s) = record f { mode = s }
  secret_step f (SecretEvent.tick i) = record f {
    mounts = update_at (λ (b : Box). check_box (not b.checked) b) i f.mounts;
  }

  unfoldable pub secret_run : SecretForm → List SecretEvent → SecretForm
  unfolding secret_step
  secret_run f [] = f
  secret_run f (e ∷ es) = secret_run (secret_step f e) es

  unfoldable pub flake_step : FlakeForm → FlakeEvent → FlakeForm
  unfolding add_input edit_input
  flake_step f FlakeEvent.add = add_input f
  flake_step f FlakeEvent.close = record f { dialog_open = false }
  flake_step f FlakeEvent.tick = record f { follows = not f.follows }
  flake_step f (FlakeEvent.edit d) = edit_input d f
  flake_step f (FlakeEvent.type_name s) = if f.name_disabled then f else record f { name_value = s }
  flake_step f (type_url s) = record f { url = s }

  unfoldable pub flake_run : FlakeForm → List FlakeEvent → FlakeForm
  unfolding flake_step
  flake_run f [] = f
  flake_run f (e ∷ es) = flake_run (flake_step f e) es
