-- ===== src/Web/Tabs.antt =====
-- web/src/tabs.ts: the tabs of the workload page. A button is named by its place in the strip.
pub mod Strip
pub mod Selection
use mathlib.Core.Option
use nixbox.Prelude.{
  Bool, List, Option, Text, [], codes, false, get_elem?, if◌then◌else◌, length, map, none, not,
  some, suc, text_eq, true, zero, ℕ, ◌%◌, ◌+◌, ◌-◌, ◌∷◌,
}

-- A tab button: data-tab, aria-selected, whether its tabIndex is 0, and `hidden` of its panel
-- (`none` if the page has no such panel).
pub record TabButton : Type 0 where
  pub tab : Text
  pub selected : Bool
  pub focusable : Bool
  pub panel_hidden : Option Bool

-- The strip with the focused button, the tab that sessionStorage holds and the URL's hash, without
-- its "#".
pub record Tabs : Type 0 where
  pub buttons : List TabButton
  pub focused : Option ℕ
  pub remembered : Option Text
  pub hash : Text

pub data Key : Type 0 where
  arrow_right arrow_left home end other : Key

-- buttons.find((b) => b.dataset.tab === name)
unfoldable pub find_tab : Text → List TabButton → Option ℕ
find_tab name [] = none
find_tab name (b ∷ bs) =
    let rest = Option.map suc (find_tab name bs) in if text_eq b.tab name then some 0 else rest

unfoldable pub show : Bool → TabButton → TabButton
show on b = record b {
  selected = on;
  focusable = on;
  panel_hidden = Option.map (λ _. not on) b.panel_hidden;
}

-- The loop over the buttons, with `b === btn` for the button at `i`.
unfoldable pub mark : ℕ → List TabButton → List TabButton
unfolding show
mark i [] = []
mark zero (b ∷ bs) = show true b ∷ map (show false) bs
mark (suc i) (b ∷ bs) = show false b ∷ mark i bs

unfoldable pub activate : Text → Bool → Bool → Tabs → Tabs
unfolding find_tab mark
activate name focus persist t = elim (find_tab name t.buttons) [
  | none ↦ t
  | some i ↦ record t {
    buttons = mark i t.buttons;
    focused = if focus then some i else t.focused;
    remembered = if persist then some name else t.remembered;
    hash = if persist then name else t.hash;
  }
]

-- The target of a key: `(i - 1 + n) % n` is `(i + n - 1) % n`, as the strip has a button.
unfoldable pub target : Key → ℕ → ℕ → Option ℕ
target arrow_right i n = some ((i + 1) % n)
target arrow_left i n = some ((i + n - 1) % n)
target home i n = some 0
target end i n = some (n - 1)
target other i n = none

-- The keydown listener.
unfoldable pub on_key : Key → Tabs → Tabs
unfolding target activate
on_key key t = elim t.focused [
  | none ↦ t
  | some i ↦ elim (target key i (length t.buttons)) [
    | none ↦ t
    | some j ↦ elim (get_elem? t.buttons j) [ none ↦ t | some b ↦ activate b.tab true true t ]
  ]
]

-- location.hash.slice(1) || sessionStorage.getItem(key)
abbrev pub wanted : Tabs → Option Text
wanted t = elim t.hash [ [] ↦ t.remembered | c ∷ s ↦ some t.hash ]

-- The restore on load; an empty name is falsy.
unfoldable pub restore : Tabs → Tabs
unfolding activate
restore t = elim (wanted t) [
  | none ↦ t
  | some name ↦ if text_eq name [] then t else activate name false false t
]

-- The click listener, for the button at `i`.
unfoldable pub on_click : ℕ → Tabs → Tabs
unfolding activate
on_click i t = elim (get_elem? t.buttons i) [ none ↦ t | some b ↦ activate b.tab true true t ]

-- The htmx:afterSwap listener; the flag says that #job-panel was swapped and is not empty.
unfoldable pub on_swap : Bool → Tabs → Tabs
unfolding activate
on_swap job_log t = if job_log then activate (codes "config") false true t else t

-- The user clicks a button or presses a key, the focus moves otherwise, a fragment is swapped in.
pub data Event : Type 0 where
  click : ℕ → Event
  press : Key → Event
  focus_at : Option ℕ → Event
  swap : Bool → Event

unfoldable pub step : Tabs → Event → Tabs
unfolding on_click on_key on_swap
step t (click i) = on_click i t
step t (press key) = on_key key t
step t (focus_at i) = record t { focused = i }
step t (swap job_log) = on_swap job_log t

unfoldable pub run : Tabs → List Event → Tabs
unfolding step
run t [] = t
run t (e ∷ es) = run (step t e) es
