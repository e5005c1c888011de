-- ===== src/Tests/Server.antt =====
-- Concrete runs of the event streams, the flake inputs and the translations.
use nixbox.Nix.Ports.{trim_space}
use nixbox.Nix.Names.{validate_name}
use nixbox.Server.Tail.Polls.{GoesOn, IsQuiet}
use nixbox.Server.Tail.Stops.{Stopped, serve-stops}
use nixbox.Server.Flakes
use nixbox.Server.Flakes.Declared.{IsNamed, run-declared}
use nixbox.Server.Flakes.{to_nix}
use nixbox.Store.Flakes.{max_input, FlakeInput}
use nixbox.Nix.Flake.Declared.{declared, count, AreDistinct, declaration_name}
use nixbox.Nix.Flake.{declarations, need_nixpkgs, has_input, any_follows, own_agenix}
use nixbox.I18n.{normalize, message, find_catalog, base_lang, Catalog, localizer, t}
use nixbox.I18n.Preferred.{t-localizer}
use nixbox.Server.Metrics.{read_cpu, stream_samples, Reading}
use nixbox.Server.Metrics.Bounds.{stream_samples-bound}
use nixbox.Prelude.{
  All, All-append, List, Option, Text, [], all, ap, append_assoc, arith, codes, false,
  if◌then◌else◌, map, none, not, refl, some, text_eq, true, ℕ, ◌&&◌, ◌++◌, ◌+◌, ◌<◌, ◌==◌, ◌||◌,
  ◌↔◌, ◌∙◌, ◌∷◌, ◌≡◌, ◌≤◌, ◌⊎◌,
}
use nixbox.Server.Tail.{
  missing, start, stream, serve, found, handle_job_events, done_wire, append_wire, Poll, split,
}
use nixbox.Server.Tail.Page.{IsInline, handle_job_events-job_run}
use nixbox.Web.Streams.{watch, job_run, done, append, JobLog, JobEvent}

-- An EventSource for the two formats: the events of complete lines.
abbrev strip : Text → Text → Option Text
strip [] s = some s
strip (p ∷ ps) [] = none
strip (p ∷ ps) (c ∷ s) = let rest = strip ps s in if p == c then rest else none

abbrev fire : Text → Text → List JobEvent → List JobEvent
fire name data_ rest =
    if text_eq name (codes "append")
    then append data_ ∷ rest
    else if text_eq name (codes "done")
    then done data_ ∷ rest
    else rest

abbrev set_field : Option Text → Option Text → Text × Text → Text × Text
set_field (some n) d (name, data_) = (n, data_)
set_field none (some d) (name, data_) = (name, d)
set_field none none fields = fields

abbrev dispatch : Text × Text → List Text → List JobEvent
dispatch (name, data_) [] = []
dispatch (name, data_) ([] ∷ ls) = fire name data_ (dispatch ([], []) ls)
dispatch (name, data_) ((c ∷ cs) ∷ ls) =
    dispatch
      (set_field (strip (codes "event: ") (c ∷ cs)) (strip (codes "data: ") (c ∷ cs)) (name, data_))
      ls

abbrev events_of : Text → List JobEvent
events_of t = dispatch ([], []) (split t).0

all-IsInline : (l : Text) → all (λ c. not (c == 10) && not (c == 13)) l ≡ true → All IsInline l
all-IsInline [] h = tt
all-IsInline (c ∷ cs) h = ((ground arith, ground arith), all-IsInline cs (ground arith))

split_line : (l r : Text) → All IsInline l → split (l ++ 10 ∷ r) ≡ (l ∷ (split r).0, (split r).1)
unfolding split
split_line [] r h = refl
split_line (c ∷ cs) r ((f, _), h) = rw (f, split_line cs r h) refl

split_two :
    (name line rest : Text)
    → All IsInline name
    → All IsInline line
    → (split (name ++ 10 ∷ (line ++ 10 ∷ (10 ∷ rest)))).0 ≡ name ∷ line ∷ [] ∷ (split rest).0
unfolding split
split_two name line rest hn hl =
    ap (λ (s : List Text × Text). s.0) (split_line name (line ++ 10 ∷ (10 ∷ rest)) hn)
    ∙ ap (λ (s : List Text × Text). name ∷ s.0) (split_line line (10 ∷ rest) hl)

data-IsInline : (line : Text) → All IsInline line → All IsInline (codes "data: " ++ line)
data-IsInline line h =
    All-append IsInline (codes "data: ") line (all-IsInline (codes "data: ") refl) h

events_of-append :
    (line rest : Text)
    → All IsInline line
    → events_of (append_wire line ++ rest) ≡ append line ∷ events_of rest
events_of-append line rest h =
    ap (λ t. events_of (codes "event: append\ndata: " ++ t)) (append_assoc line (codes "\n\n") rest)
    ∙ ap (dispatch ([], [])) (
        split_two (codes "event: append") (codes "data: " ++ line) rest
          (all-IsInline (codes "event: append") refl) (data-IsInline line h))

events_of-done :
    (status : Text) → All IsInline status → events_of (done_wire status) ≡ done status ∷ []
unfolding split
events_of-done status h = ap (dispatch ([], [])) (
    split_two (codes "event: done") (codes "data: " ++ status) []
      (all-IsInline (codes "event: done") refl) (data-IsInline status h))

abbrev poll : Option Text → Text → Poll
poll file status = record { file = file; readable = true; job = found status; cancelled = false }

abbrev early : List Poll
early = poll none (codes "running") ∷ poll (some (codes "one\ntw")) (codes "running") ∷ []

abbrev whole_log : Text
whole_log = codes "one\ntwo\nend"

abbrev last_poll : Poll
last_poll = poll (some whole_log) (codes "succeeded")

abbrev page : JobLog
page = record {
  watching = false;
  opened = 0;
  streaming = false;
  text = [];
  badge = some (codes "running", codes "status status-running");
}

no_return : All (λ c. (c == 13) ≡ false) whole_log
no_return =
    (refl, (refl, (refl, (refl, (refl, (refl, (refl, (refl, (refl, (refl, (refl, tt)))))))))))

quiet : All (IsQuiet whole_log) early
quiet = (((refl, refl), tt), (((refl, refl), (codes "o\nend", refl)), tt))

handle_job_events-job_run_example :
    (sent : Text) × (handle_job_events
        (some 7)
        (found (codes "running"))
        true
        (early ++ last_poll ∷ [])
      ≡ stream sent true)
    × (job_run page (watch ∷ events_of sent) ≡ record {
      watching = true;
      opened = 1;
      streaming = false;
      text = codes "one\ntwo\nend\n";
      badge = some (codes "succeeded", codes "status status-succeeded");
    })
handle_job_events-job_run_example =
    handle_job_events-job_run events_of events_of-append events_of-done page 7 (codes "running")
      whole_log (codes "succeeded") early last_poll [] refl no_return
      (all-IsInline (codes "succeeded") refl) quiet (refl, refl) refl refl

abbrev gone_poll : Poll
gone_poll = record { file = none; readable = true; job = missing; cancelled = false }

serve-stops_example :
    (All GoesOn (early ++ gone_poll ∷ early)
      × ((serve start (early ++ gone_poll ∷ early)).1 ≡ false))
    ⊎ Stopped start (early ++ gone_poll ∷ early)
serve-stops_example = serve-stops start (early ++ gone_poll ∷ early)

abbrev library : FlakeInput
library = record {
  id = 1;
  name = codes "library";
  url = codes "github:owner/library";
  follows_nixpkgs = true;
  created_at = 1;
  updated_at = 1;
  applied_at = none;
}

abbrev requests : List Flakes.Request
requests =
    Flakes.create 5 false (codes " nixpkgs ") (codes "github:NixOS/nixpkgs") false
    ∷ Flakes.create 6 false (codes "library") (codes "github:owner/other") false
    ∷ Flakes.save 7 false (codes "library") (codes "github:owner/fork") true
    ∷ []

library-IsNamed : IsNamed (library ∷ [])
unfolding validate_name
library-IsNamed = (λ n. ground arith, ((refl, refl), tt))

run-declared_example :
    let ins = map to_nix (Flakes.run (library ∷ []) requests) in
    IsNamed (Flakes.run (library ∷ []) requests)
    × (AreDistinct (declared ins true)
        ↔ ((need_nixpkgs ins true && has_input (codes "nixpkgs") ins) ≡ false))
    × ((true ≡ false) ⊎ (count (codes "agenix") (declared ins true) ≡ 1))
    × (((any_follows ins || own_agenix ins true) ≡ false)
        ⊎ (1 ≤ count (codes "nixpkgs") (declared ins true)))
run-declared_example = run-declared (library ∷ []) requests true library-IsNamed

-- The input that the user has called nixpkgs stands beside nixbox's own.
nixpkgs_twice :
    map declaration_name (declarations (map to_nix (Flakes.run (library ∷ []) requests)) false)
    ≡ codes "nixpkgs" ∷ codes "library" ∷ codes "nixpkgs" ∷ []
unfolding declarations Flakes.run Flakes.step validate_name max_input
nixpkgs_twice = refl

abbrev bundle : List (Text × Catalog)
bundle =
    (codes "en", (codes "nav.flakes", codes "Flakes") ∷ (codes "nav.system", codes "System") ∷ [])
    ∷ (codes "ro", (codes "nav.system", codes "Sistem") ∷ [])
    ∷ []

t-localizer_example :
    ((localizer (λ c. c) bundle (codes "de" ∷ codes "ro-RO" ∷ [])).locale ≡ codes "ro")
    × (t (localizer (λ c. c) bundle (codes "de" ∷ codes "ro-RO" ∷ [])) (codes "nav.flakes")
        ≡ codes "Flakes")
unfolding base_lang find_catalog message normalize trim_space
t-localizer_example =
    t-localizer (λ c. c) bundle (codes "de" ∷ codes "ro-RO" ∷ []) (codes "nav.flakes")

abbrev reading : ℕ → Text → Reading
reading now stat = record { now = now; stat = some stat; usages = [] }

abbrev first_reading : Reading
first_reading = reading 10 (codes "cpu  10 0 5 100 2\ncpu0 1 1 1\n")

abbrev second_reading : Reading
second_reading = reading 2010 (codes "cpu  30 0 15 190 2\n")

stream_samples-bound_example :
    (117 < 237)
    × (120 + 117 ≡ 237)
    × ((30 ≤ 120) ↔ ((15 ≤ 45) × (45 + 117 ≤ 237 + 15)))
    × ((45 < 15) ⊎ (30 + 15 ≡ 45))
unfolding stream_samples read_cpu
stream_samples-bound_example =
    stream_samples-bound none [] first_reading second_reading []
      (record { cpu_pct = some (record { num = 30; den = 120 }); containers = [] })
      (record { num = 30; den = 120 }) (omega arith) (omega arith) refl refl
