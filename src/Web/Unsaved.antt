-- ===== src/Web/Unsaved.antt =====
-- web/src/workload-form.ts, guardUnsavedEditor: buttons that need a saved form. A form's signature,
-- the URL-encoded form data, is a text.
pub mod Sync
use nixbox.Prelude.{
  Bool, List, Option, Text, [], if◌then◌else◌, map, none, not, some, text_eq, ◌&&◌, ◌||◌,
}

-- A guarded button, with its state when the guard was set up.
pub record Button : Type 0 where
  pub was_disabled : Bool
  pub disabled : Bool
  pub title : Text

-- `current` is what signature() returns now; `none` in `inflight` is null.
pub record Guard : Type 0 where
  pub current : Text
  pub saved_value : Text
  pub inflight_value : Option Text
  pub buttons : List Button

-- The form as it stands when the guard is set up.
abbrev pub baseline : Text → List Bool → Guard
baseline signature disabled = record {
  current = signature;
  saved_value = signature;
  inflight_value = none;
  buttons = map (λ d. record { was_disabled = d; disabled = d; title = [] }) disabled;
}

-- htmx:beforeRequest; the flag is `detail.elt === form`.
unfoldable pub before_request : Bool → Guard → Guard
before_request own g = if own then record g { inflight_value = some g.current } else g

module _ (msg_unsaved : Text) where
  abbrev pub refresh_button : Bool → Button → Button
  refresh_button dirty b = record b {
    disabled = b.was_disabled || dirty;
    title = if not b.was_disabled && dirty then msg_unsaved else [];
  }

  unfoldable pub refresh : Guard → Guard
  refresh g =
      let dirty = not (text_eq g.current g.saved_value) in
      record g { buttons = map (refresh_button dirty) g.buttons }

  -- The set-up: the form as it stands is the baseline.
  unfoldable pub guard_unsaved_editor : Text → List Bool → Guard
  unfolding refresh
  guard_unsaved_editor signature disabled = refresh (baseline signature disabled)

  -- The input and change listeners, after the form has changed.
  unfoldable pub on_input : Text → Guard → Guard
  unfolding refresh
  on_input signature g = refresh (record g { current = signature })

  -- htmx:afterRequest
  unfoldable pub after_request : Bool → Bool → Guard → Guard
  unfolding refresh
  after_request own successful g =
      if own && successful
      then elim g.inflight_value [
        | none ↦ g
        | some v ↦ refresh (record g { saved_value = v; inflight_value = none })
      ]
      else g
