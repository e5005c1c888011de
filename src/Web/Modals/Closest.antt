-- ===== src/Web/Modals/Closest.antt =====
-- The elements that the selectors of web/src/dialogs.ts find around the target of an event.
use nixbox.Prelude.{
  All, Bool, List, Option, Text, [], ap, arith, false, none, refl, some, true, ◌&&◌, ◌++◌, ◌∙◌, ◌∷◌,
  ◌≡◌,
}
use nixbox.Web.Modals.{
  Element, closest_dialog, closest_opener, closest_lazy, closed_dialog, success_dialog,
}

abbrev pub given : Option Text → Bool
given none = false
given (some id) = true

-- What the selectors ask of an element: [data-open-dialog], [data-close-dialog], dialog, and
-- dialog.modal[data-lazy].
abbrev pub opener : Element → Bool
opener e = given e.open_dialog

abbrev pub closer : Element → Bool
closer e = e.close_dialog

abbrev pub is_dialog : Element → Bool
is_dialog e = given e.dialog

abbrev pub is_lazy : Element → Bool
is_lazy e = given e.dialog && e.lazy

-- The innermost element of a path that a selector takes, with the elements around it.
abbrev pub Closest : (Element → Bool) → List Element → Element → List Element → Type 0
Closest p path e around =
    (inner : List Element) × (path ≡ inner ++ e ∷ around)
    × All (λ x. p x ≡ false) inner
    × (p e ≡ true)

-- The innermost dialog of the path is d.
abbrev pub IsIn : Text → List Element → Type 0
IsIn d path =
    (e : Element) × (around : List Element) × Closest is_dialog path e around × (e.dialog ≡ some d)

-- The path begins with a form that is, or is not, marked [data-close-on-success].
abbrev pub Marked : Bool → List Element → Type 0
Marked b [] = ⊥
Marked b (form ∷ path) = form.close_on_success ≡ b

not_given : (o : Option Text) → given o ≡ false → o ≡ none
not_given none e = refl
not_given (some id) e = cc

pub closest_opener-none :
    (path : List Element) → All (λ x. opener x ≡ false) path → closest_opener path ≡ none
unfolding closest_opener
closest_opener-none [] h = refl
closest_opener-none (x ∷ path) (p, ps) =
    rw (not_given x.open_dialog p, closest_opener) (closest_opener-none path ps)

pub closest_opener-first :
    (d : Text) (e : Element) (around inner : List Element)
    → All (λ x. opener x ≡ false) inner
    → e.open_dialog ≡ some d
    → closest_opener (inner ++ e ∷ around) ≡ some d
unfolding closest_opener
closest_opener-first d e around [] h o = rw (o, closest_opener) refl
closest_opener-first d e around (x ∷ inner) (p, ps) o =
    rw (not_given x.open_dialog p, closest_opener) (closest_opener-first d e around inner ps o)

pub closest_dialog-first :
    (d : Text) (e : Element) (around inner : List Element)
    → All (λ x. is_dialog x ≡ false) inner
    → e.dialog ≡ some d
    → closest_dialog (inner ++ e ∷ around) ≡ some d
unfolding closest_dialog
closest_dialog-first d e around [] h o = rw (o, closest_dialog) refl
closest_dialog-first d e around (x ∷ inner) (p, ps) o =
    rw (not_given x.dialog p, closest_dialog) (closest_dialog-first d e around inner ps o)

pub closest_dialog-IsIn :
    (d : Text) (path : List Element) → IsIn d path → closest_dialog path ≡ some d
closest_dialog-IsIn d path (e, around, (inner, split_, before, is), o) =
    ap closest_dialog split_ ∙ closest_dialog-first d e around inner before o

pub closest_lazy-none :
    (path : List Element) → All (λ x. is_lazy x ≡ false) path → closest_lazy path ≡ none
unfolding closest_lazy
closest_lazy-none [] h = refl
closest_lazy-none (x ∷ path) (p, ps) = let rest = closest_lazy-none path ps in ground arith

pub closest_lazy-first :
    (d : Text) (e : Element) (around inner : List Element)
    → All (λ x. is_lazy x ≡ false) inner
    → is_lazy e ≡ true
    → e.dialog ≡ some d
    → closest_lazy (inner ++ e ∷ around) ≡ some d
unfolding closest_lazy
closest_lazy-first d e around [] h is o = ground arith
closest_lazy-first d e around (x ∷ inner) (p, ps) is o =
    let rest = closest_lazy-first d e around inner ps is o in ground arith

pub closed_dialog-none :
    (path : List Element) → All (λ x. closer x ≡ false) path → closed_dialog path ≡ none
unfolding closed_dialog
closed_dialog-none [] h = refl
closed_dialog-none (x ∷ path) (p, ps) = rw (p, closed_dialog) (closed_dialog-none path ps)

pub closed_dialog-first :
    (d : Text) (e : Element) (around inner : List Element)
    → All (λ x. closer x ≡ false) inner
    → closer e ≡ true
    → IsIn d (e ∷ around)
    → closed_dialog (inner ++ e ∷ around) ≡ some d
unfolding closed_dialog
closed_dialog-first d e around [] h is in_ = rw is (closest_dialog-IsIn d (e ∷ around) in_)
closed_dialog-first d e around (x ∷ inner) (p, ps) is in_ =
    rw (p, closed_dialog) (closed_dialog-first d e around inner ps is in_)

pub success_dialog-none : (path : List Element) → Marked false path → success_dialog path ≡ none
unfolding success_dialog
success_dialog-none [] m = absurd m
success_dialog-none (form ∷ path) m = rw (m, success_dialog) refl

pub success_dialog-some :
    (d : Text) (path : List Element) → Marked true path → IsIn d path → success_dialog path ≡ some d
unfolding success_dialog
success_dialog-some d [] m in_ = absurd m
success_dialog-some d (form ∷ path) m in_ = rw m (closest_dialog-IsIn d (form ∷ path) in_)
