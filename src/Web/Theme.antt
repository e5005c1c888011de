-- ===== src/Web/Theme.antt =====
-- web/src/chrome.ts, the theme toggle.
use nixbox.Prelude.{Bool, Option, arith, if◌then◌else◌, none, some, ◌≡◌}

pub data Theme : Type 0 where
  light dark : Theme

-- data-theme of <html> (`none` if it is unset), what localStorage holds, and what the OS asks for.
pub record Chrome : Type 0 where
  pub chosen : Option Theme
  pub stored : Option Theme
  pub prefers_dark : Bool

-- The theme that the page shows: the choice, or the OS's.
unfoldable pub shown : Chrome → Theme
shown c = elim c.chosen [ none ↦ if c.prefers_dark then dark else light | some t ↦ t ]

abbrev pub opposite : Theme → Theme
opposite dark = light
opposite light = dark

-- The click listener.
unfoldable pub toggle : Chrome → Chrome
unfolding shown
toggle c = let next = opposite (shown c) in record c { chosen = some next; stored = some next }

-- A click changes the shown theme to the other one, two clicks change it back, whatever was chosen
-- before and whatever the OS asks for, and what is stored is what is shown.
pub shown-toggle :
    (c : Chrome)
    → (shown (toggle c) ≡ opposite (shown c))
      × (shown (toggle (toggle c)) ≡ shown c)
      × ((toggle c).stored ≡ some (shown (toggle c)))
unfolding toggle
shown-toggle c = ground arith
