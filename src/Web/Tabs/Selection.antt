-- ===== src/Web/Tabs/Selection.antt =====
-- The strip of web/src/tabs.ts over sequences of clicks, keys and swaps.
use nixbox.Prelude.{
  Bool, Bool-cases, List, Option-cases, Text, [], arith, codes, false, get_elem?, inl, inr, length,
  some, suc, text_eq, true, zero, ℕ, ◌<◌, ◌∷◌, ◌≡◌,
}
use nixbox.Web.Tabs.{
  TabButton, Tabs, Key, Event, click, press, focus_at, swap, find_tab, activate, target, on_key,
  on_click, restore, wanted, step, run,
}
use nixbox.Web.Tabs.Strip.{IsOnly, mark-IsOnly, length-mark, find_tab_sound}

-- One button is selected, and no panel is shown but its own.
abbrev pub HasOne : List TabButton → Type 0
HasOne bs = (i : ℕ) × (i < length bs) × IsOnly i bs

lt_of_get_elem? {ℓ} :
    {A : Type ℓ} (xs : List A) (i : ℕ) {x : A} → get_elem? xs i ≡ some x → i < length xs
lt_of_get_elem? [] i e = cc
lt_of_get_elem? (x ∷ xs) zero e = omega arith
lt_of_get_elem? (x ∷ xs) (suc i) e = omega (arith, lt_of_get_elem? xs i e)

activate-HasOne :
    (name : Text) (focus persist : Bool) (t : Tabs)
    → HasOne t.buttons
    → HasOne (activate name focus persist t).buttons
unfolding activate
activate-HasOne name focus persist t h = elim (Option-cases (find_tab name t.buttons)) [
  | inl absent_ ↦ rw (absent_, activate) h
  | inr (i, e) ↦
      let (b, found, named) = find_tab_sound name t.buttons i e in
      let inside = lt_of_get_elem? t.buttons i found in
      rw (e, activate) (i, rw (length-mark i t.buttons) inside, mark-IsOnly i t.buttons)
]

on_click-HasOne : (i : ℕ) (t : Tabs) → HasOne t.buttons → HasOne (on_click i t).buttons
unfolding on_click
on_click-HasOne i t h = elim (Option-cases (get_elem? t.buttons i)) [
  | inl absent_ ↦ rw (absent_, on_click) h
  | inr (b, e) ↦ rw (e, on_click) (activate-HasOne b.tab true true t h)
]

on_key-HasOne : (key : Key) (t : Tabs) → HasOne t.buttons → HasOne (on_key key t).buttons
unfolding on_key on_click
on_key-HasOne key t h = elim (Option-cases t.focused) [
  | inl absent_ ↦ rw (absent_, on_key) h
  | inr (i, e) ↦
      rw (e, on_key)
        (elim (Option-cases (target key i (length t.buttons))) [
          | inl absent_ ↦ rw (absent_, on_key) h
          | inr (j, to) ↦ rw (to, on_key) (on_click-HasOne j t h)
        ])
]

step-HasOne : (t : Tabs) (e : Event) → HasOne t.buttons → HasOne (step t e).buttons
unfolding step
step-HasOne t (click i) h = on_click-HasOne i t h
step-HasOne t (press key) h = on_key-HasOne key t h
step-HasOne t (focus_at i) h = h
step-HasOne t (swap true) h = activate-HasOne (codes "config") false true t h
step-HasOne t (swap false) h = h

restore-HasOne : (t : Tabs) → HasOne t.buttons → HasOne (restore t).buttons
unfolding restore
restore-HasOne t h = elim (Option-cases (wanted t)) [
  | inl absent_ ↦ rw (absent_, restore) h
  | inr (name, e) ↦
      rw (e, restore)
        (elim (Bool-cases (text_eq name [])) [
          | inl empty_ ↦ rw empty_ h
          | inr named ↦ rw named (activate-HasOne name false false t h)
        ])
]

run_all : (t : Tabs) (es : List Event) → HasOne t.buttons → HasOne (run t es).buttons
unfolding run
run_all t [] h = h
run_all t (e ∷ es) h = run_all (step t e) es (step-HasOne t e h)

-- On a strip where one button is selected and no panel is shown but its own, this is still so after the
-- restore on load and any clicks, keys, moves of the focus and swaps, whatever the URL's hash, the
-- remembered tab and the names of the buttons are.
pub run-restore-HasOne :
    (t : Tabs) (es : List Event) → HasOne t.buttons → HasOne (run (restore t) es).buttons
run-restore-HasOne t es h = run_all (restore t) es (restore-HasOne t h)
