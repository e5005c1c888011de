-- ===== src/Web/Editor.antt =====
-- web/editor/index.js, mount and init: CodeMirror views over textareas, each of which mirrors its
-- document; and the Tab key of the plain textarea, web/src/workload-form.ts.
pub mod Mirror
use nixbox.Prelude.{
  Bool, List, Option, Text, [], codes, drop, if◌then◌else◌, map, none, some, take, true, update_at,
  ℕ, ◌++◌, ◌+◌, ◌∷◌,
}

-- A textarea: its value, data-cm-mounted, whether it is hidden, how many `input` events the mirror
-- has fired on it, and the document of its view.
pub record TextArea : Type 0 where
  pub value : Text
  pub mounted : Bool
  pub hidden : Bool
  pub inputs : ℕ
  pub view : Option Text

-- mount(textarea)
unfoldable pub mount : TextArea → TextArea
mount ta =
    if ta.mounted then ta else record ta { mounted = true; hidden = true; view = some ta.value }

-- A transaction of the view with the document that it leaves, and the update listener.
unfoldable pub sync : Bool → Text → TextArea → TextArea
sync doc_changed doc ta = elim ta.view [
  | none ↦ ta
  | some old ↦
      if doc_changed then record ta { view = some doc; value = doc; inputs = ta.inputs + 1 } else ta
]

-- init(), over the page's textareas
unfoldable pub init : List TextArea → List TextArea
unfolding mount
init = map mount

-- The textareas of a page take transactions and further calls of init (or of mount on one of them).
pub data Event : Type 0 where
  init_again : Event
  mount_one : ℕ → Event
  change : (area : ℕ) (doc_changed : Bool) (doc : Text) → Event

unfoldable pub step : List TextArea → Event → List TextArea
unfolding init sync
step tas init_again = init tas
step tas (mount_one i) = update_at mount i tas
step tas (change i doc_changed doc) = update_at (sync doc_changed doc) i tas

unfoldable pub run : List TextArea → List Event → List TextArea
unfolding step
run tas [] = tas
run tas (e ∷ es) = run (step tas e) es

-- The Tab key in a plain textarea: setRangeText("  ", start, end, "end") leaves the text and the
-- caret.
unfoldable pub insert_tab : Text → ℕ → ℕ → Text × ℕ
insert_tab value start end = (take start value ++ codes "  " ++ drop end value, start + 2)
