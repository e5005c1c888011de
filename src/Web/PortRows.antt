-- ===== src/Web/PortRows.antt =====
-- web/src/workload-form.ts, initPortEditor: the host ports of the save form, one row each, and the guard
-- that every structural change nudges. Focus is left out.
pub mod Guarded
pub mod Saving
use nixbox.Prelude.{Bool, List, Text, [], codes, suc, update_at, zero, ℕ, ◌++◌, ◌∷◌}
use nixbox.Nix.Ports.{HostPort, decimal}
use nixbox.Web.Unsaved.{Guard, guard_unsaved_editor, on_input}

-- The value of a row's input and of its select.
pub record PortRow : Type 0 where
  pub port : Text
  pub proto : Text

-- The row that web/templates/workload.html has for a port, and its template for a new one.
abbrev pub row_of : HostPort → PortRow
row_of p = record { port = decimal p.port; proto = p.proto }

abbrev pub empty_row : PortRow
empty_row = record { port = []; proto = codes "tcp" }

abbrev pub remove_at {ℓ} : {A : Type ℓ} → ℕ → List A → List A
remove_at i [] = []
remove_at zero (x ∷ xs) = xs
remove_at (suc i) (x ∷ xs) = x ∷ remove_at i xs

-- The click listener of .port-add, up to notify.
unfoldable pub add_row : List PortRow → List PortRow
add_row rows = rows ++ empty_row ∷ []

-- The click listener of a row's .port-del, up to notify.
unfoldable pub delete_row : ℕ → List PortRow → List PortRow
delete_row i rows = remove_at i rows

-- The form: the textarea's content and the rows, with the guard over it.
pub record SaveForm : Type 0 where
  pub content : Text
  pub rows : List PortRow
  pub guard : Guard

-- The user edits the content or a row, which fires input events, or adds or deletes a row.
pub data Event : Type 0 where
  edit : Text → Event
  fill : ℕ → PortRow → Event
  add : Event
  delete : ℕ → Event

-- `encode` is the URL encoding of the form's fields, `msg` the title of a guarded button.
module _ (encode : Text → List PortRow → Text) (msg : Text) where
  unfoldable pub open_form : Text → List PortRow → List Bool → SaveForm
  open_form content rows disabled = record {
    content = content;
    rows = rows;
    guard = guard_unsaved_editor msg (encode content rows) disabled;
  }

  -- An input event on the form as it stands.
  unfoldable pub notify : SaveForm → SaveForm
  notify f = record f { guard = on_input msg (encode f.content f.rows) f.guard }

  unfoldable pub step : SaveForm → Event → SaveForm
  unfolding notify add_row delete_row
  step f (edit s) = notify (record f { content = s })
  step f (fill i r) = notify (record f { rows = update_at (λ _. r) i f.rows })
  step f add = notify (record f { rows = add_row f.rows })
  step f (delete i) = notify (record f { rows = delete_row i f.rows })

  unfoldable pub run : SaveForm → List Event → SaveForm
  unfolding step
  run f [] = f
  run f (e ∷ es) = run (step f e) es
