-- ===== src/Web/Confirm.antt =====
-- web/src/dialogs.ts, the unified confirmation: the capture-phase submit listener and the listener
-- of the dialog's OK button. A form is named by a number; `requestSubmit` fires a submit event, and
-- only if the form's fields are valid, which is a parameter.
pub mod Gate
use nixbox.Prelude.{
  Bool, List, Option, Text, [], false, if◌then◌else◌, none, some, true, ℕ, ◌+◌, ◌==◌, ◌∷◌,
}

-- A form: its data-confirm message (`[]` if absent or empty), whether data-confirmed is set, and how
-- many of its submits went on to htmx or navigation.
pub record Form : Type 0 where
  pub confirm : Text
  pub confirmed : Bool
  pub passed : ℕ

pub record Page : Type 0 where
  pub forms : ℕ → Form
  pub pending_confirm : Option ℕ
  pub message : Text
  pub dialog_open : Bool

-- The user submits a form, presses OK in the dialog (which needs the dialog open), or cancels it.
pub data Event : Type 0 where
  submit : ℕ → Event
  ok cancel : Event

abbrev pub set_form : ℕ → Form → Page → Page
set_form f v p = record p { forms = λ g. if g == f then v else p.forms g }

abbrev let_through : Form → Form
let_through v = record v { passed = v.passed + 1 }

abbrev pub is_blank : Text → Bool
is_blank [] = true
is_blank (c ∷ s) = false

-- The submit listener, and the submit itself where the listener lets it go on.
unfoldable pub on_submit : ℕ → Page → Page
on_submit f p =
    let form = p.forms f in
    if is_blank form.confirm
    then set_form f (let_through form) p
    else if form.confirmed
    then set_form f (let_through (record form { confirmed = false })) p
    else record p { pending_confirm = some f; message = form.confirm; dialog_open = true }

module _ (valid : ℕ → Bool) where
  unfoldable pub request_submit : ℕ → Page → Page
  unfolding on_submit
  request_submit f p = if valid f then on_submit f p else p

  -- The click listener of [data-confirm-ok].
  unfoldable pub on_ok : Page → Page
  unfolding request_submit
  on_ok p =
      let q = record p { dialog_open = false; pending_confirm = none } in
      elim p.pending_confirm [
        | none ↦ q
        | some f ↦ request_submit f (set_form f (record (p.forms f) { confirmed = true }) q)
      ]

  unfoldable pub step : Page → Event → Page
  unfolding on_ok on_submit
  step p (submit f) = on_submit f p
  step p ok = if p.dialog_open then on_ok p else p
  step p cancel = record p { dialog_open = false }

  unfoldable pub run : Page → List Event → Page
  unfolding step
  run p [] = p
  run p (e ∷ es) = run (step p e) es
