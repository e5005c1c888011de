-- ===== src/Tests/Page.antt =====
-- Terminals, tabs, editors, streams and byte counts of the page.
use nixbox.Prelude.{
  All, List, Text, [], arith, codes, false, length, none, refl, some, suc, true, ℕ, ◌<◌, ◌^◌, ◌∷◌,
  ◌≡◌, ◌≤◌, ◌⊎◌,
}
use nixbox.Web.Terminal.{
  Panel, Host, Document, click, opened, socket_closed, socket_failed, step, run, init,
}
use nixbox.Web.Terminal
use nixbox.Web.Terminal.Sessions.{IsExclusive, run-Exclusive}
use nixbox.Web.Terminal.Frames.{IsSound, run-AllSound}
use nixbox.Web.Tabs.{
  TabButton, Tabs, arrow_right, arrow_left, find_tab, activate, target, on_key, restore,
}
use nixbox.Web.Tabs
use nixbox.Web.Tabs.Selection.{HasOne, run-restore-HasOne}
use nixbox.Web.Tabs.Strip.{Distinct}
use nixbox.Web.Editor
use nixbox.Web.Editor.{TextArea}
use nixbox.Web.Streams.{JobLog, JobEvent, watch, append, done, Journal, JournalEvent, toggle, line}
use nixbox.Web.Format.{
  fmt_scaled, scale, format_scaled, go_scale, whole, tenths, fmt_bytes, format_bytes,
}
use nixbox.Web.Format.Units.{RoundsUp, RoundsEven, fmt_bytes-format_bytes}

abbrev panel : Panel
panel = record {
  sessions = [];
  teardown = false;
  hidden = true;
  disabled = false;
  label = codes "Open";
}

-- A session fails, its button reconnects, and the old socket's close arrives late.
abbrev reconnect : List Terminal.Event
reconnect = click ∷ opened 0 24 80 ∷ socket_failed 0 ∷ click ∷ socket_closed 1 ∷ opened 0 24 80 ∷ []

two_sessions : length (run panel reconnect).sessions ≡ 2
unfolding run
two_sessions = refl

run-Exclusive_example : IsExclusive (run panel reconnect).disabled (run panel reconnect).sessions
run-Exclusive_example = run-Exclusive panel reconnect refl

run-AllSound_example : All IsSound (run panel reconnect).sessions
run-AllSound_example = run-AllSound panel reconnect refl

abbrev document : Document
document = record {
  host = some (record { has_ws = true; mounted = false; panel = panel });
  buttons = record { wired = false; has_target = true; listeners = 0 } ∷ [];
}

abbrev tab : Text → TabButton
tab name = record { tab = name; selected = false; focusable = false; panel_hidden = some true }

abbrev strip : Tabs
strip = record {
  buttons = tab (codes "editor") ∷ tab (codes "logs") ∷ tab (codes "terminal") ∷ [];
  focused = some 2;
  remembered = none;
  hash = [];
}

logs_found : find_tab (codes "logs") strip.buttons ≡ some 1
unfolding find_tab
logs_found = refl

distinct : Distinct strip.buttons
distinct = ((λ e. cc, (λ e. cc, tt)), ((λ e. cc, tt), (tt, tt)))

wraps : target arrow_right 2 3 ≡ some 0
unfolding target
wraps = refl

-- The strip as the page is rendered: its first tab is selected.
abbrev rendered : Tabs
rendered = record {
  buttons =
      record { tab = codes "config"; selected = true; focusable = true; panel_hidden = some false }
      ∷ tab (codes "logs")
      ∷ tab (codes "terminal")
      ∷ [];
  focused = none;
  remembered = some (codes "terminal");
  hash = codes "gone";
}

abbrev tab_events : List Tabs.Event
tab_events = Tabs.click 1 ∷ Tabs.press arrow_left ∷ Tabs.focus_at none ∷ Tabs.swap true ∷ []

run-restore-HasOne_example : HasOne (Tabs.run (restore rendered) tab_events).buttons
run-restore-HasOne_example =
    run-restore-HasOne rendered tab_events
      (0, omega arith, (refl, λ e. cc, ((refl, λ e. cc), ((refl, λ e. cc), tt))))

abbrev areas : List TextArea
areas =
    record { value = codes "{ }"; mounted = false; hidden = false; inputs = 0; view = none } ∷ []

abbrev edits : List Editor.Event
edits = Editor.init_again ∷ Editor.change 0 true (codes "{ a = 1; }") ∷ Editor.init_again ∷ []

abbrev job_log : JobLog
job_log = record { watching = false; opened = 0; streaming = false; text = []; badge = none }

abbrev job_events : List JobEvent
job_events = append (codes "building") ∷ watch ∷ done (codes "ok") ∷ append (codes "late") ∷ []

abbrev journal : Journal
journal = record { streams = []; inside = some false; text = [] }

abbrev journal_events : List JournalEvent
journal_events = line 0 (codes "host") ∷ toggle true ∷ line 1 (codes "late") ∷ []

-- A tie: 1280 bytes are 1.25 KiB.
fmt_1280 : fmt_bytes 1280 ≡ tenths 13 1
unfolding fmt_bytes fmt_scaled scale
fmt_1280 = refl

format_1280 : format_bytes 1280 ≡ tenths 12 1
unfolding format_bytes format_scaled go_scale
format_1280 = refl

fmt_bytes-format_bytes_example :
    ((1280 < 1024) × (fmt_bytes 1280 ≡ whole 1280) × (format_bytes 1280 ≡ whole 1280))
    ⊎ ((i : ℕ) × (k : ℕ) × (even : ℕ) × (1024 ^ suc i ≤ 1280)
        × (1280 < 1024 ^ suc (suc i))
        × (fmt_bytes 1280 ≡ tenths k (suc i))
        × (format_bytes 1280 ≡ tenths even (suc i))
        × RoundsUp 1280 (1024 ^ suc i) k
        × RoundsEven 1280 (1024 ^ suc i) k even)
fmt_bytes-format_bytes_example = fmt_bytes-format_bytes 1280 (omega arith)
