-- ===== src/Web/PortRows/Guarded.antt =====
-- The guard of web/src/workload-form.ts over sequences of edits of the rows.
use nixbox.Prelude.{List, Text, ◌≡◌}
use nixbox.Web.Unsaved.Sync.{Shows}
use nixbox.Web.PortRows.{PortRow, SaveForm}

module _ (encode : Text → List PortRow → Text) (msg : Text) where
  -- The guard knows the form, and its buttons show whether it differs from the last save.
  record InSync (saved : Text) (f : SaveForm) : Type 0 where
    known : f.guard.current ≡ encode f.content f.rows
    kept : f.guard.saved_value ≡ saved
    shown : Shows f.guard
