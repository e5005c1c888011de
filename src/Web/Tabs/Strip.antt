-- ===== src/Web/Tabs/Strip.antt =====
-- The strip of web/src/tabs.ts after activations, keys and reloads.
use nixbox.Prelude.{
  All, All-get_elem?, Bool, Bool-cases, List, Option-cases, Text, [], ap, arith, false, get_elem?,
  get_elem?-of_lt, inl, inr, length, length-map, map, refl, some, suc, sym, text_eq, text_eq_self,
  text_eq_sound, true, zero, ℕ, ◌%◌, ◌+◌, ◌-◌, ◌<◌, ◌∷◌, ◌≡◌, ◌≢◌, ◌⊎◌,
}
use native.Mathlib.Nat.{mod-lt}
use mathlib.Core.Option.{some-injective}
use nixbox.Web.Tabs.{
  TabButton, Tabs, Key, arrow_right, arrow_left, home, end, other, find_tab, show, mark, activate,
  target, on_key, restore,
}

-- The button at `i`, if any, is the selected one, and its panel the only one that is not hidden.
abbrev pub IsOnly : ℕ → List TabButton → Type 0
IsOnly i [] = Unit
IsOnly zero (b ∷ bs) =
    (b.selected ≡ true)
    × (b.panel_hidden ≢ some true)
    × All (λ (c : TabButton). (c.selected ≡ false) × (c.panel_hidden ≢ some false)) bs
IsOnly (suc i) (b ∷ bs) = (b.selected ≡ false) × (b.panel_hidden ≢ some false) × IsOnly i bs

show_on :
    (b : TabButton) → ((show true b).selected ≡ true) × ((show true b).panel_hidden ≢ some true)
unfolding show
show_on b = ground arith

show_off :
    (b : TabButton) → ((show false b).selected ≡ false) × ((show false b).panel_hidden ≢ some false)
unfolding show
show_off b = ground arith

All-show_off :
    (bs : List TabButton)
    → All
        (λ (c : TabButton). (c.selected ≡ false) × (c.panel_hidden ≢ some false))
        (map (show false) bs)
All-show_off [] = tt
All-show_off (b ∷ bs) = (show_off b, All-show_off bs)

pub mark-IsOnly : (i : ℕ) (bs : List TabButton) → IsOnly i (mark i bs)
unfolding mark
mark-IsOnly i [] = tt
mark-IsOnly zero (b ∷ bs) = ((show_on b).0, (show_on b).1, All-show_off bs)
mark-IsOnly (suc i) (b ∷ bs) = ((show_off b).0, (show_off b).1, mark-IsOnly i bs)

pub find_tab_sound :
    (name : Text) (bs : List TabButton) (i : ℕ)
    → find_tab name bs ≡ some i
    → (b : TabButton) × (get_elem? bs i ≡ some b) × (b.tab ≡ name)
unfolding find_tab
find_tab_sound name [] i e = cc
find_tab_sound name (b ∷ bs) i e = elim (Bool-cases (text_eq b.tab name)) [
  | inl same ↦
      let at_zero : 0 ≡ i = ground arith in (b, rw (← at_zero) refl, text_eq_sound b.tab name same)
  | inr differs ↦ elim (Option-cases (find_tab name bs)) [
    | inl missed ↦ cc (rw (differs, missed) at e)
    | inr (j, found) ↦
        let at_suc : suc j ≡ i = some-injective _ _ (rw (differs, found) at e) in
        rw (← at_suc) (find_tab_sound name bs j found)
  ]
]

-- To activate a tab that the strip has selects exactly one button, the first with that name, and
-- shows no other panel; what is persisted is its name.
pub activate-IsOnly :
    (name : Text) (focus persist : Bool) (t : Tabs) (i : ℕ)
    → find_tab name t.buttons ≡ some i
    → ((b : TabButton) × (get_elem? t.buttons i ≡ some b) × (b.tab ≡ name))
      × IsOnly i (activate name focus persist t).buttons
unfolding activate
activate-IsOnly name focus persist t i e =
    (find_tab_sound name t.buttons i e, rw (e, activate) (mark-IsOnly i t.buttons))

-- A reload with the hash dropped or kept lands on the tab that was last activated by hand.
pub restore-activate :
    (name : Text) (focus : Bool) (t : Tabs) (i : ℕ) (hash : Text)
    → name ≢ []
    → find_tab name t.buttons ≡ some i
    → (hash ≡ []) ⊎ (hash ≡ name)
    → (restore
        (record t { remembered = (activate name focus true t).remembered; hash = hash })).buttons
      ≡ (activate name focus true t).buttons
unfolding restore
restore-activate [] focus t i hash ne e h = absurd (ne refl)
restore-activate (c ∷ s) focus t i hash ne e (inl h) = rw h (rw (e, activate) (rw (e, activate)))
restore-activate (c ∷ s) focus t i hash ne e (inr h) = rw h (rw (e, activate))

-- The names of the buttons are different.
abbrev pub Distinct : List TabButton → Type 0
Distinct [] = Unit
Distinct (b ∷ bs) = All (λ (c : TabButton). b.tab ≢ c.tab) bs × Distinct bs

find_tab_of_Distinct :
    (bs : List TabButton) (i : ℕ) (b : TabButton)
    → Distinct bs
    → get_elem? bs i ≡ some b
    → find_tab b.tab bs ≡ some i
unfolding find_tab
find_tab_of_Distinct [] i b d e = cc
find_tab_of_Distinct (c ∷ bs) zero b (new, d) e =
    let same = some-injective _ _ e in rw (same, text_eq_self b.tab)
find_tab_of_Distinct (c ∷ bs) (suc i) b (new, d) e = ground (
  arith,
  text_eq_sound c.tab b.tab,
  All-get_elem? (λ (x : TabButton). c.tab ≢ x.tab) i bs e new,
  find_tab_of_Distinct bs i b d e,
)

pub length-mark : (i : ℕ) (bs : List TabButton) → length (mark i bs) ≡ length bs
unfolding mark
length-mark i [] = refl
length-mark zero (b ∷ bs) = ap suc (length-map (show false) bs)
length-mark (suc i) (b ∷ bs) = ap suc (length-mark i bs)

tabs : List TabButton → List Text
tabs = map (λ (b : TabButton). b.tab)

tabs-show : (bs : List TabButton) → tabs (map (show false) bs) ≡ tabs bs
unfolding tabs show
tabs-show [] = refl
tabs-show (b ∷ bs) = ap (◌∷◌ b.tab) (tabs-show bs)

tabs-mark : (i : ℕ) (bs : List TabButton) → tabs (mark i bs) ≡ tabs bs
unfolding tabs mark
tabs-mark i [] = refl
tabs-mark zero (b ∷ bs) = ap (◌∷◌ b.tab) (tabs-show bs)
tabs-mark (suc i) (b ∷ bs) = ap (◌∷◌ b.tab) (tabs-mark i bs)

All-of-tabs :
    (name : Text) (bs cs : List TabButton)
    → tabs bs ≡ tabs cs
    → All (λ (c : TabButton). name ≢ c.tab) bs
    → All (λ (c : TabButton). name ≢ c.tab) cs
unfolding tabs
All-of-tabs name bs [] e h = tt
All-of-tabs name [] (c ∷ cs) e h = cc
All-of-tabs name (b ∷ bs) (c ∷ cs) e (h, hs) = ((λ q. h (cc)), All-of-tabs name bs cs (cc) hs)

Distinct-of-tabs : (bs cs : List TabButton) → tabs bs ≡ tabs cs → Distinct bs → Distinct cs
unfolding tabs
Distinct-of-tabs bs [] e d = tt
Distinct-of-tabs [] (c ∷ cs) e d = cc
Distinct-of-tabs (b ∷ bs) (c ∷ cs) e (new, d) =
    let same : b.tab ≡ c.tab = cc in
    (rw (← same) (All-of-tabs b.tab bs cs (cc) new), Distinct-of-tabs bs cs (cc) d)

target_lt : (key : Key) (i n j : ℕ) → i < n → target key i n ≡ some j → j < n
unfolding target
target_lt arrow_right i n j h e = rw (← some-injective _ _ e) (mod-lt (i + 1) (omega arith))
target_lt arrow_left i n j h e = rw (← some-injective _ _ e) (mod-lt (i + n - 1) (omega arith))
target_lt home i n j h e = rw (← some-injective _ _ e) (omega arith)
target_lt end i n j h e = rw (← some-injective _ _ e) (omega arith)
target_lt other i n j h e = cc

-- Where a key leads, for a strip of buttons with different names whose button `i` has the focus: the
-- key's target gets the focus and alone is selected, in the same strip of names.
on_key_lem :
    (key : Key) (t : Tabs) (i j : ℕ)
    → Distinct t.buttons
    → t.focused ≡ some i
    → i < length t.buttons
    → target key i (length t.buttons) ≡ some j
    → ((on_key key t).focused ≡ some j) × ((on_key key t).buttons ≡ mark j t.buttons)
unfolding on_key
on_key_lem key t i j d f h e =
    let (b, at) = get_elem?-of_lt t.buttons j (target_lt key i _ j h e) in
    let found = find_tab_of_Distinct t.buttons j b d at in
    (
      rw (f, on_key) (rw (e) (rw (at) (rw (found, activate)))),
      rw (f, on_key) (rw (e) (rw (at) (rw (found, activate)))),
    )

-- A key with a target moves the focus to that button of the strip and selects it alone, if the
-- buttons have different names and a button has the focus.
pub on_key-IsOnly :
    (key : Key) (t : Tabs) (i j : ℕ)
    → Distinct t.buttons
    → t.focused ≡ some i
    → i < length t.buttons
    → target key i (length t.buttons) ≡ some j
    → ((on_key key t).focused ≡ some j)
      × (j < length (on_key key t).buttons)
      × IsOnly j (on_key key t).buttons
on_key-IsOnly key t i j d f h e =
    let (moved, marked) = on_key_lem key t i j d f h e in
    (
      moved,
      rw marked (rw (length-mark j t.buttons) (target_lt key i _ j h e)),
      rw marked (mark-IsOnly j t.buttons),
    )

right-left : (i n : ℕ) → i < n → ((i + 1) % n + n - 1) % n ≡ i
right-left i n h = grind arith

left-right : (i n : ℕ) → i < n → ((i + n - 1) % n + 1) % n ≡ i
left-right i n h = grind arith

key_after :
    (first second : Key) (t : Tabs) (i j k : ℕ)
    → Distinct t.buttons
    → t.focused ≡ some i
    → i < length t.buttons
    → target first i (length t.buttons) ≡ some j
    → target second j (length t.buttons) ≡ some k
    → (on_key second (on_key first t)).focused ≡ some k
key_after first second t i j k d f h e e' =
    let (moved, marked) = on_key_lem first t i j d f h e in
    let u = on_key first t in
    let same : length u.buttons ≡ length t.buttons = rw marked (length-mark j t.buttons) in
    let names : tabs t.buttons ≡ tabs u.buttons = rw marked (sym (tabs-mark j t.buttons)) in
    (on_key_lem second u j k (Distinct-of-tabs t.buttons u.buttons names d) moved
      (rw same (target_lt first i _ j h e)) (rw same e')).0

-- Arrow right and then left, or left and then right, comes back to the same button, at the ends of
-- the strip too.
pub arrows_inverse :
    (t : Tabs) (i : ℕ)
    → Distinct t.buttons
    → t.focused ≡ some i
    → i < length t.buttons
    → ((on_key arrow_left (on_key arrow_right t)).focused ≡ some i)
      × ((on_key arrow_right (on_key arrow_left t)).focused ≡ some i)
unfolding target
arrows_inverse t i d f h =
    let n = length t.buttons in
    (
      key_after arrow_right arrow_left t i ((i + 1) % n) i d f h refl (ap some (right-left i n h)),
      key_after arrow_left arrow_right t i ((i + n - 1) % n) i d f h refl
          (ap some (left-right i n h)),
    )
