-- ===== src/Web/Modals.antt =====
-- The modals of web/src/dialogs.ts: the listeners that open and close a dialog. The target of an event
-- is given with the elements around it, the innermost first.
pub mod Closest
pub mod Visit
use nixbox.Prelude.{
  Bool, List, Option, Text, [], false, if◌then◌else◌, none, some, text_eq, true, ℕ, ◌==◌, ◌∷◌,
}

-- What the listeners read of an element: data-open-dialog, data-close-dialog, data-close-on-success, the
-- id if it is a dialog, and whether that is a data-lazy modal.
pub record Element : Type 0 where
  pub open_dialog : Option Text
  pub close_dialog : Bool
  pub close_on_success : Bool
  pub dialog : Option Text
  pub lazy : Bool

-- The dialogs of the document by their ids, and which are open.
abbrev pub Dialogs : Type 0
Dialogs = List (Text × Bool)

-- getElementById with dlg.open; `none` if that is no dialog.
unfoldable pub is_open : Text → Dialogs → Option Bool
is_open id [] = none
is_open id ((k, shown) ∷ ds) = let rest = is_open id ds in if text_eq k id then some shown else rest

-- showModal and close.
unfoldable pub set_open : Text → Bool → Dialogs → Dialogs
set_open id b [] = []
set_open id b ((k, shown) ∷ ds) =
    let rest = set_open id b ds in if text_eq k id then (k, b) ∷ ds else (k, shown) ∷ rest

-- closest("[data-open-dialog]") with its value.
unfoldable pub closest_opener : List Element → Option Text
closest_opener [] = none
closest_opener (e ∷ path) =
    let rest = closest_opener path in elim e.open_dialog [ none ↦ rest | some id ↦ some id ]

-- closest("dialog")
unfoldable pub closest_dialog : List Element → Option Text
closest_dialog [] = none
closest_dialog (e ∷ path) =
    let rest = closest_dialog path in elim e.dialog [ none ↦ rest | some id ↦ some id ]

-- closest("dialog.modal[data-lazy]")
unfoldable pub closest_lazy : List Element → Option Text
closest_lazy [] = none
closest_lazy (e ∷ path) =
    let rest = closest_lazy path in
    elim e.dialog [ none ↦ rest | some id ↦ if e.lazy then some id else rest ]

-- closest("[data-close-dialog]")?.closest("dialog")
unfoldable pub closed_dialog : List Element → Option Text
unfolding closest_dialog
closed_dialog [] = none
closed_dialog (e ∷ path) =
    let rest = closed_dialog path in if e.close_dialog then closest_dialog (e ∷ path) else rest

abbrev pub close_open : Text → Option Bool → Dialogs → Dialogs × Bool
close_open id none ds = (ds, false)
close_open id (some false) ds = (ds, false)
close_open id (some true) ds = (set_open id false ds, true)

abbrev pub close_enclosing : Option Text → Dialogs → Dialogs × Bool
close_enclosing none ds = (ds, false)
close_enclosing (some id) ds = close_open id (is_open id ds) ds

-- The click listener, and whether it prevents what the browser does by itself.
unfoldable pub on_click : List Element → Dialogs → Dialogs × Bool
unfolding closest_opener closed_dialog set_open is_open
on_click path ds = elim (closest_opener path) [
  | some id ↦ (set_open id true ds, false)
  | none ↦ close_enclosing (closed_dialog path) ds
]

-- form.closest("dialog") of a form that is marked [data-close-on-success].
unfoldable pub success_dialog : List Element → Option Text
unfolding closest_dialog
success_dialog [] = none
success_dialog (form ∷ path) = if form.close_on_success then closest_dialog (form ∷ path) else none

abbrev pub set_some : Option Text → Bool → Dialogs → Dialogs
set_some none b ds = ds
set_some (some id) b ds = set_open id b ds

-- The htmx:afterRequest listener.
unfoldable pub on_after_request : (successful : Bool) → List Element → Dialogs → Dialogs
unfolding success_dialog set_open
on_after_request successful path ds =
    if successful then set_some (success_dialog path) false ds else ds

abbrev pub show_closed : Text → Option Bool → Dialogs → Dialogs
show_closed id none ds = ds
show_closed id (some false) ds = set_open id true ds
show_closed id (some true) ds = ds

abbrev pub show_some : Option Text → Dialogs → Dialogs
show_some none ds = ds
show_some (some id) ds = show_closed id (is_open id ds) ds

-- The htmx:afterSwap listener.
unfoldable pub on_after_swap : List Element → Dialogs → Dialogs
unfolding closest_lazy set_open is_open
on_after_swap path ds = show_some (closest_lazy path) ds

-- The htmx:beforeSwap listener.
unfoldable pub on_before_swap : (status : ℕ) → (should_swap : Bool) → Bool
on_before_swap status should_swap = if status == 422 then true else should_swap

pub data Event : Type 0 where
  click : List Element → Event
  after_request : (successful : Bool) → List Element → Event
  after_swap : List Element → Event

unfoldable pub step : Dialogs → Event → Dialogs
unfolding on_click on_after_request on_after_swap
step ds (click path) = (on_click path ds).0
step ds (after_request successful path) = on_after_request successful path ds
step ds (after_swap path) = on_after_swap path ds

unfoldable pub run : Dialogs → List Event → Dialogs
unfolding step
run ds [] = ds
run ds (e ∷ es) = run (step ds e) es
