-- ===== src/Web/Editor/Mirror.antt =====
-- The textareas of web/editor/index.js and their views over sequences of edits.
use nixbox.Prelude.{
  All, All-update_at, Bool, List, Text, [], append_assoc, ap₂, arith, codes, drop-append_length,
  false, length, length-append, none, refl, some, take-append_length, true, ◌++◌, ◌+◌, ◌∷◌, ◌≡◌,
  ◌⊎◌,
}
use nixbox.Web.Editor.{
  TextArea, Event, init_again, mount_one, change, mount, sync, init, step, run, insert_tab,
}

-- An area that is not mounted has no view; a mounted one is hidden and its value is the view's
-- document.
abbrev pub IsMirror : TextArea → Type 0
IsMirror ta =
    ((ta.mounted ≡ false) × (ta.view ≡ none))
    ⊎ ((ta.mounted ≡ true) × (ta.hidden ≡ true) × (ta.view ≡ some ta.value))

mount-IsMirror : (ta : TextArea) → IsMirror ta → IsMirror (mount ta)
unfolding mount
mount-IsMirror ta h = ground arith

sync-IsMirror : (c : Bool) (doc : Text) (ta : TextArea) → IsMirror ta → IsMirror (sync c doc ta)
unfolding sync
sync-IsMirror c doc ta h = ground arith

init-IsMirror : (tas : List TextArea) → All IsMirror tas → All IsMirror (init tas)
unfolding init
init-IsMirror [] h = tt
init-IsMirror (ta ∷ tas) (h, hs) = (mount-IsMirror ta h, init-IsMirror tas hs)

step-IsMirror : (tas : List TextArea) (e : Event) → All IsMirror tas → All IsMirror (step tas e)
unfolding step
step-IsMirror tas init_again h = init-IsMirror tas h
step-IsMirror tas (mount_one i) h = All-update_at IsMirror mount mount-IsMirror i tas h
step-IsMirror tas (change i c doc) h =
    All-update_at IsMirror (sync c doc) (sync-IsMirror c doc) i tas h

-- Areas that start without a view: after any edits in the views and any further calls of init and
-- mount, every mounted textarea is hidden and holds its view's document, which its form submits.
pub run-IsMirror :
    (tas : List TextArea) (es : List Event) → All IsMirror tas → All IsMirror (run tas es)
unfolding run
run-IsMirror tas [] h = h
run-IsMirror tas (e ∷ es) h = run-IsMirror (step tas e) es (step-IsMirror tas e h)

mount-mount : (ta : TextArea) → mount (mount ta) ≡ mount ta
unfolding mount
mount-mount ta = ground arith

-- init mounts every textarea, and a second init changes nothing: the views and what is typed in them
-- stay.
pub init-mounts :
    (tas : List TextArea)
    → All (λ (ta : TextArea). ta.mounted ≡ true) (init tas) × (init (init tas) ≡ init tas)
unfolding init
init-mounts [] = (tt, refl)
init-mounts (ta ∷ tas) =
    let (ms, same) = init-mounts tas in ((mounted ta, ms), cc (mount-mount ta, same))
  where
    mounted : (ta : TextArea) → (mount ta).mounted ≡ true
    mounted ta = ground arith

-- The Tab key replaces the selection by two spaces and keeps what stands before and after it.
pub insert_tab_lem :
    (before selected after : Text)
    → insert_tab (before ++ selected ++ after) (length before) (length before + length selected)
      ≡ (before ++ codes "  " ++ after, length before + 2)
unfolding insert_tab
insert_tab_lem before selected after =
    ap₂ (λ (a b : Text). (a ++ codes "  " ++ b, length before + 2))
      (rw append_assoc (take-append_length before (selected ++ after)))
      (rw (← length-append before selected) (drop-append_length (before ++ selected) after))
