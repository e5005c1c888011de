-- ===== src/Tests/Forms.antt =====
-- The forms of the page: derived IDs, confirmations, guarded buttons.
use nixbox.Prelude.{
  All, Bool, List, Text, [], arith, codes, false, if◌then◌else◌, leb, map, none, not, refl, some,
  text_eq, true, ℕ, ◌&&◌, ◌+◌, ◌∷◌, ◌≡◌, ◌⊎◌,
}
use nixbox.Nix.Names.{is_alnum, is_label, validate_name}
use nixbox.Nix.Names.Rule.{IsLabel}
use nixbox.Web.NewWorkload.{NameInput, Radio, Event, display, name, pick, slugify, run}
use nixbox.Web.NewWorkload.Slug.{IsSlug}
use nixbox.Web.NewWorkload.Form.{run-derived, run_by_hand}
use nixbox.Web.Confirm
use nixbox.Web.Unsaved.{after_request, Guard, guard_unsaved_editor, on_input, before_request}
use nixbox.Web.Unsaved
use nixbox.Web.Unsaved.Sync.{World}

-- What the Unicode steps do to an ASCII text.
abbrev nfkd : Text → Text
nfkd t = t

abbrev lower_char : ℕ → ℕ
lower_char c = if leb b'A' c && leb c b'Z' then c + 32 else c

abbrev lower : Text → Text
lower t = map lower_char t

abbrev blank_input : NameInput
blank_input = record { value = []; auto = none; max_length = 11; pattern = []; hint = none }

abbrev vm_radio : Radio
vm_radio = record {
  name = codes "type";
  name_pattern = codes "[a-z0-9-]+";
  name_maxlen = 63;
  name_hint = codes "up to 63";
}

abbrev session : List Event
session = display (codes "My  Box!") ∷ pick vm_radio ∷ []

session_auto : (run nfkd lower blank_input session).auto ≡ some (codes "my-box")
unfolding run slugify is_alnum
session_auto = refl

run-derived_example :
    ((run nfkd lower blank_input session).value ≡ codes "my-box")
    × ((codes "my-box" ≡ []) ⊎ (validate_name (codes "my-box") ≡ none))
run-derived_example =
    run-derived nfkd lower blank_input session (codes "my-box") refl (omega arith)
      (tt, (omega arith, tt)) session_auto

run_by_hand_example :
    ((run nfkd lower blank_input (name (codes "box1") ∷ session)).auto ≡ none)
    × ((run nfkd lower blank_input (name (codes "box1") ∷ session)).value ≡ codes "box1")
run_by_hand_example =
    run_by_hand nfkd lower blank_input (codes "box1") session (λ e. cc) (tt, (tt, tt))

label_lower : (c : ℕ) → IsLabel c → lower_char c ≡ c
unfolding is_label
label_lower c l = ground arith

labels_lower : (t : Text) → All IsLabel t → lower t ≡ t
labels_lower [] ls = refl
labels_lower (c ∷ t) (l, ls) = cc (label_lower c l, labels_lower t ls)

box-IsSlug : IsSlug 63 (codes "b-1")
unfolding is_label
box-IsSlug = record {
  short = omega arith;
  labels = (refl, (refl, (refl, tt)));
  lead = ground arith;
  trail = ground arith;
  single = refl;
}

abbrev page : Confirm.Page
page = record {
  forms = λ f. record { confirm = codes "Delete?"; confirmed = false; passed = 0 };
  pending_confirm = none;
  message = [];
  dialog_open = false;
}

abbrev clicks : List Confirm.Event
clicks = Confirm.submit 3 ∷ Confirm.cancel ∷ Confirm.submit 3 ∷ Confirm.ok ∷ Confirm.submit 3 ∷ []

passed_once : ((Confirm.run (λ f. true) page clicks).forms 3).passed ≡ 1
unfolding Confirm.run
passed_once = refl

abbrev msg : Text
msg = codes "Unsaved changes"

-- The server can parse the ports of every form but one.
abbrev ports_parse : Text → Bool
ports_parse v = not (text_eq v (codes "port=x"))

abbrev opened_form : World
opened_form = record {
  guard = guard_unsaved_editor msg (codes "a=1") (false ∷ true ∷ []);
  request = none;
  stored = codes "a=1";
  answered = codes "a=1";
}

abbrev edited : World
edited = record opened_form { guard = on_input msg (codes "port=x") opened_form.guard }

abbrev sent : World
sent = record edited {
  guard = before_request true edited.guard;
  request = some edited.guard.current;
}

-- The save with a malformed port is answered with 200.
abbrev refused : World
refused = record sent {
  guard = after_request msg true true sent.guard;
  request = none;
  answered = codes "port=x";
}
