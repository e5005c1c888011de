-- ===== src/Web/Streams.antt =====
-- web/src/jobs.ts and web/src/journal.ts: logs that follow a server-sent event stream. A closed
-- stream delivers nothing more.
pub mod Follow
use nixbox.Prelude.{
  Bool, List, Option, Text, [], codes, false, if◌then◌else◌, none, some, suc, true, zero, ℕ, ◌++◌,
  ◌+◌, ◌∷◌,
}

-- #job-log with data-watching, the streams opened on it, whether the last one is open, and the
-- #job-status badge: its text and its class, or `none` if the page has none.
pub record JobLog : Type 0 where
  pub watching : Bool
  pub opened : ℕ
  pub streaming : Bool
  pub text : Text
  pub badge : Option (Text × Text)

-- watchJob is called on load and after every swap; the stream appends lines, ends or fails.
pub data JobEvent : Type 0 where
  watch : JobEvent
  append done : Text → JobEvent
  failed : JobEvent

-- watchJob()
unfoldable pub watch_job : JobLog → JobLog
watch_job p =
    if p.watching then p else record p { watching = true; opened = p.opened + 1; streaming = true }

abbrev pub badge_of : Text → Option (Text × Text) → Option (Text × Text)
badge_of status none = none
badge_of status (some b) = some (status, codes "status status-" ++ status)

unfoldable pub job_step : JobLog → JobEvent → JobLog
unfolding watch_job
job_step p watch = watch_job p
job_step p (append line) =
    if p.streaming then record p { text = p.text ++ line ++ codes "\n" } else p
job_step p (done status) =
    if p.streaming then record p { streaming = false; badge = badge_of status p.badge } else p
job_step p failed = record p { streaming = false }

unfoldable pub job_run : JobLog → List JobEvent → JobLog
unfolding job_step
job_run p [] = p
job_run p (e ∷ es) = job_run (job_step p e) es

-- #container-log: the streams that connect() has opened, newest first, each with its URL query and
-- whether it is open; the checkbox (`none` if the page has none), and the text.
pub record Journal : Type 0 where
  pub streams : List (Text × Bool)
  pub inside : Option Bool
  pub text : Text

-- The user toggles the checkbox; a stream, named by its age, delivers a line.
pub data JournalEvent : Type 0 where
  toggle : Bool → JournalEvent
  line : (age : ℕ) → Text → JournalEvent

abbrev pub close_first : List (Text × Bool) → List (Text × Bool)
close_first [] = []
close_first ((q, open_) ∷ ss) = (q, false) ∷ ss

abbrev pub source_of : Option Bool → Text
source_of none = []
source_of (some inside) = if inside then codes "?source=container" else []

-- connect()
unfoldable pub connect : Journal → Journal
connect j = record j { streams = (source_of j.inside, true) ∷ close_first j.streams; text = [] }

-- Whether the stream of that age is open.
abbrev pub is_live : ℕ → List (Text × Bool) → Bool
is_live n [] = false
is_live zero ((q, open_) ∷ ss) = open_
is_live (suc n) (s ∷ ss) = is_live n ss

unfoldable pub journal_step : Journal → JournalEvent → Journal
unfolding connect
journal_step j (toggle checked) = elim j.inside [
  | none ↦ j
  | some _ ↦ connect (record j { inside = some checked })
]
journal_step j (line age text) =
    if is_live age j.streams then record j { text = j.text ++ text ++ codes "\n" } else j

unfoldable pub journal_run : Journal → List JournalEvent → Journal
unfolding journal_step
journal_run j [] = j
journal_run j (e ∷ es) = journal_run (journal_step j e) es
