-- ===== src/Web/Modals/Visit.antt =====
-- A visit to a modal of web/src/dialogs.ts, from what opens it to what closes it.
use mathlib.Core.Option.{some-injective}
use nixbox.Prelude.{
  All, Bool, Bool-cases, List, Text, [], ap, false, inl, inr, refl, some, sym, text_eq, true, ◌++◌,
  ◌∙◌, ◌∷◌, ◌≡◌, ◌⊎◌,
}
use nixbox.Web.Modals.Closest.{
  opener, closer, is_lazy, Closest, IsIn, Marked, closest_opener-none, closest_opener-first,
  closest_lazy-none, closest_lazy-first, closed_dialog-none, closed_dialog-first,
  success_dialog-none, success_dialog-some,
}
use nixbox.Web.Modals.{
  Dialogs, is_open, set_open, Element, closest_opener, closest_lazy, closed_dialog, on_click,
  on_after_request, on_after_swap, Event, click, after_request, after_swap, step, run,
}

-- A click on an opener of the dialog, or a fragment that lands in it, if it is lazy.
abbrev pub Opens : Text → Event → Type 0
Opens d (click path) =
    (e : Element) × (around : List Element) × Closest opener path e around
    × (e.open_dialog ≡ some d)
Opens d (after_request successful path) = ⊥
Opens d (after_swap path) =
    (e : Element) × (around : List Element) × Closest is_lazy path e around × (e.dialog ≡ some d)

-- A click on neither an opener nor a closer, a request that fails, or one of a form that is not marked,
-- and a swap in the lazy dialog or outside lazy ones.
abbrev pub Stays : Text → Event → Type 0
Stays d (click path) = All (λ x. opener x ≡ false) path × All (λ x. closer x ≡ false) path
Stays d (after_request successful path) = (successful ≡ false) ⊎ Marked false path
Stays d (after_swap path) = Opens d (after_swap path) ⊎ All (λ x. is_lazy x ≡ false) path

-- A click on a closer in the dialog, and on no opener, or a success of a marked form in it.
abbrev pub Ends : Text → Event → Type 0
Ends d (click path) =
    All (λ x. opener x ≡ false) path
    × ((e : Element) × (around : List Element) × Closest closer path e around × IsIn d (e ∷ around))
Ends d (after_request successful path) = (successful ≡ true) × Marked true path × IsIn d path
Ends d (after_swap path) = ⊥

opened_by : (d : Text) (path : List Element) → Opens d (click path) → closest_opener path ≡ some d
opened_by d path (e, around, (inner, split_, before, is), o) =
    ap closest_opener split_ ∙ closest_opener-first d e around inner before o

swapped_in :
    (d : Text) (path : List Element) → Opens d (after_swap path) → closest_lazy path ≡ some d
swapped_in d path (e, around, (inner, split_, before, is), o) =
    ap closest_lazy split_ ∙ closest_lazy-first d e around inner before is o

closed_by : (d : Text) (path : List Element) → Ends d (click path) → closed_dialog path ≡ some d
closed_by d path (none_, (e, around, (inner, split_, before, is), in_)) =
    ap closed_dialog split_ ∙ closed_dialog-first d e around inner before is in_

is_open-set_open :
    (d : Text) (a b : Bool) (ds : Dialogs)
    → is_open d ds ≡ some a
    → is_open d (set_open d b ds) ≡ some b
unfolding is_open set_open
is_open-set_open d a b [] e = cc
is_open-set_open d a b ((k, shown) ∷ ds) e = elim (Bool-cases (text_eq k d)) [
  | inl t ↦ rw (t, t) refl
  | inr f ↦ rw (f, f) (is_open-set_open d a b ds (rw f at e))
]

set_open_back :
    (d : Text) (a b : Bool) (ds : Dialogs)
    → is_open d ds ≡ some a
    → set_open d a (set_open d b ds) ≡ ds
unfolding is_open set_open
set_open_back d a b [] e = cc
set_open_back d a b ((k, shown) ∷ ds) e = elim (Bool-cases (text_eq k d)) [
  | inl t ↦
      let same : shown ≡ a = some-injective _ _ (rw t at e) in
      rw (t, t) (ap (λ (x : Bool). (k, x) ∷ ds) (sym same))
  | inr f ↦ rw (f, f) (ap (◌∷◌ (k, shown)) (set_open_back d a b ds (rw f at e)))
]

step-Opens :
    (d : Text) (e : Event) (ds : Dialogs)
    → Opens d e
    → is_open d ds ≡ some false
    → step ds e ≡ set_open d true ds
unfolding step on_click on_after_swap
step-Opens d (click path) ds opens closed = rw (opened_by d path opens, step, on_click) refl
step-Opens d (after_request successful path) ds opens closed = absurd opens
step-Opens d (after_swap path) ds opens closed = rw (swapped_in d path opens) (rw closed refl)

step-Stays :
    (d : Text) (e : Event) (ds : Dialogs) → Stays d e → is_open d ds ≡ some true → step ds e ≡ ds
unfolding step on_click on_after_swap on_after_request
step-Stays d (click path) ds (no_opener, no_closer) shown =
    rw (closest_opener-none path no_opener, step, on_click)
      (rw (closed_dialog-none path no_closer) refl)
step-Stays d (after_request successful path) ds (inl failed) shown = rw failed refl
step-Stays d (after_request successful path) ds (inr none_) shown = elim (Bool-cases successful) [
  | inl t ↦ rw (t, success_dialog-none path none_) refl
  | inr f ↦ rw f refl
]
step-Stays d (after_swap path) ds (inl own) shown = rw (swapped_in d path own) (rw shown refl)
step-Stays d (after_swap path) ds (inr none_) shown = rw (closest_lazy-none path none_) refl

step-Ends :
    (d : Text) (e : Event) (ds : Dialogs)
    → Ends d e
    → is_open d ds ≡ some true
    → step ds e ≡ set_open d false ds
unfolding step on_click on_after_request
step-Ends d (click path) ds (no_opener, ends) shown =
    rw (closest_opener-none path no_opener, step, on_click)
      (rw (closed_by d path (no_opener, ends)) (rw shown refl))
step-Ends d (after_request successful path) ds (ok, form, in_) shown =
    rw (ok, success_dialog-some d path form in_) refl
step-Ends d (after_swap path) ds ends shown = absurd ends

run-Stays :
    (d : Text) (es : List Event) (ds : Dialogs)
    → All (Stays d) es
    → is_open d ds ≡ some true
    → run ds es ≡ ds
unfolding run
run-Stays d [] ds h shown = refl
run-Stays d (e ∷ es) ds (h, hs) shown = rw (step-Stays d e ds h shown) (run-Stays d es ds hs shown)

run-append : (ds : Dialogs) (es fs : List Event) → run ds (es ++ fs) ≡ run (run ds es) fs
unfolding run
run-append ds [] fs = refl
run-append ds (e ∷ es) fs = run-append (step ds e) es fs

-- A visit to a dialog that is on the page and closed: a click in which the innermost opener names it, or a
-- fragment landing in it if it is lazy; any clicks outside openers and closers, failed requests, successes
-- of forms that are not marked [data-close-on-success], and swaps in the lazy dialog or outside lazy ones;
-- and a click outside openers whose innermost closer is in it, or the success of a marked form in it. Before the last event the dialog is open and every other one is as at first, and after it
-- all dialogs are as at first.
pub run_visit :
    (d : Text) (ds : Dialogs) (first : Event) (es : List Event) (last : Event)
    → is_open d ds ≡ some false
    → Opens d first
    → All (Stays d) es
    → Ends d last
    → (run ds (first ∷ es) ≡ set_open d true ds) × (run ds (first ∷ es ++ last ∷ []) ≡ ds)
unfolding run
run_visit d ds first es last closed opens stays ends =
    let opened = step-Opens d first ds opens closed in
    let shown = is_open-set_open d false true ds closed in
    let kept : run ds (first ∷ es) ≡ set_open d true ds =
      ap (λ (x : Dialogs). run x es) opened ∙ run-Stays d es (set_open d true ds) stays shown in
    (
      kept,
      run-append (step ds first) es (last ∷ [])
          ∙ (ap (λ (x : Dialogs). step x last) kept
              ∙ (step-Ends d last (set_open d true ds) ends shown
                  ∙ set_open_back d false true ds closed)),
    )
