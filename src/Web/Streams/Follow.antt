-- ===== src/Web/Streams/Follow.antt =====
-- The logs of web/src/jobs.ts and web/src/journal.ts over sequences of stream events.
use nixbox.Prelude.{
  All, Bool, Bool-cases, List, Option, Option-cases, Text, [], ap, append-nil, append_assoc, arith,
  codes, false, inl, inr, refl, suc, sym, true, zero, ℕ, ◌++◌, ◌+◌, ◌∙◌, ◌∷◌, ◌≡◌,
}
use nixbox.Web.Streams.{
  badge_of, JobLog, JobEvent, watch, append, done, failed, job_step, job_run, watch_job, Journal,
  JournalEvent, toggle, line, close_first, source_of, connect, is_live, journal_step, journal_run,
}

-- The lines before the stream ends.
abbrev pub lines_until_end : List JobEvent → Text
lines_until_end [] = []
lines_until_end (watch ∷ es) = lines_until_end es
lines_until_end (append l ∷ es) = l ++ codes "\n" ++ lines_until_end es
lines_until_end (done status ∷ es) = []
lines_until_end (failed ∷ es) = []

job_step_ended :
    (p : JobLog) (e : JobEvent) → p.watching ≡ true → p.streaming ≡ false → job_step p e ≡ p
unfolding job_step
job_step_ended p watch w s = ground arith
job_step_ended p (append l) w s = ground arith
job_step_ended p (done status) w s = ground arith
job_step_ended p failed w s = ground arith

job_run_ended :
    (p : JobLog) (es : List JobEvent) → p.watching ≡ true → p.streaming ≡ false → job_run p es ≡ p
unfolding job_run
job_run_ended p [] w s = refl
job_run_ended p (e ∷ es) w s =
    ap (λ q. job_run q es) (job_step_ended p e w s) ∙ job_run_ended p es w s

pub job_step_live :
    (p : JobLog)
    → p.watching ≡ true
    → p.streaming ≡ true
    → (job_step p watch ≡ p)
      × ((l : Text) → job_step p (append l) ≡ record p { text = p.text ++ l ++ codes "\n" })
      × ((status : Text)
          → job_step p (done status)
            ≡ record p { streaming = false; badge = badge_of status p.badge })
unfolding job_step
job_step_live p w s = (ground arith, λ l. ground arith, λ status. ground arith)

ended_text :
    (p : JobLog) (es : List JobEvent)
    → p.watching ≡ true
    → p.streaming ≡ false
    → ((job_run p es).text ≡ p.text ++ []) × ((job_run p es).opened ≡ p.opened)
ended_text p es w s =
    let same = job_run_ended p es w s in
    (ap (λ (q : JobLog). q.text) same ∙ sym (append-nil p.text), ap (λ (q : JobLog). q.opened) same)

abbrev Follows : JobLog → List JobEvent → Type 0
Follows p es =
    ((job_run p es).text ≡ p.text ++ lines_until_end es) × ((job_run p es).opened ≡ p.opened)

job_run_live :
    (p : JobLog) (es : List JobEvent) → p.watching ≡ true → p.streaming ≡ true → Follows p es
unfolding job_run
job_run_live p [] w s = (sym (append-nil p.text), refl)
job_run_live p (watch ∷ es) w s =
    let (text, opened) = job_run_live p es w s in
    let same = ap (λ q. job_run q es) (job_step_live p w s).0 in
    (ap (λ (q : JobLog). q.text) same ∙ text, ap (λ (q : JobLog). q.opened) same ∙ opened)
job_run_live p (append l ∷ es) w s =
    let q = record p { text = p.text ++ l ++ codes "\n" } in
    let (text, opened) = job_run_live q es w s in
    let same = ap (λ r. job_run r es) ((job_step_live p w s).1 l) in
    (
      ap (λ (r : JobLog). r.text) same ∙ (text ∙ (simp append_assoc)),
      ap (λ (r : JobLog). r.opened) same ∙ opened,
    )
job_run_live p (done status ∷ es) w s =
    let q = record p { streaming = false; badge = badge_of status p.badge } in
    let (text, opened) = ended_text q es w refl in
    let same = ap (λ r. job_run r es) ((job_step_live p w s).2 status) in
    (ap (λ (r : JobLog). r.text) same ∙ text, ap (λ (r : JobLog). r.opened) same ∙ opened)
job_run_live p (failed ∷ es) w s = ended_text (record p { streaming = false }) es w refl

-- The first watchJob of a page opens one stream; after it, however often watchJob is called again and
-- whatever the stream delivers, no other stream is opened, and the log gains each appended line once,
-- in order, up to the end or failure of the stream.
pub job_run_watch :
    (p : JobLog) (es : List JobEvent)
    → p.watching ≡ false
    → ((job_run p (watch ∷ es)).text ≡ p.text ++ lines_until_end es)
      × ((job_run p (watch ∷ es)).opened ≡ p.opened + 1)
unfolding job_run watch_job
job_run_watch p es w =
    let q = record p { watching = true; opened = p.opened + 1; streaming = true } in
    let (text, opened) = job_run_live q es refl refl in
    let same : watch_job p ≡ q = ground arith in
    let run_same = ap (λ r. job_run r es) same in
    (ap (λ (r : JobLog). r.text) run_same ∙ text, ap (λ (r : JobLog). r.opened) run_same ∙ opened)

-- The newest stream is open and has the query of the checkbox; the older ones are closed.
abbrev pub IsLast : Option Bool → List (Text × Bool) → Type 0
IsLast inside [] = ⊥
IsLast inside ((q, open_) ∷ ss) =
    (q ≡ source_of inside) × (open_ ≡ true) × All (λ (s : Text × Bool). s.1 ≡ false) ss

closed-after :
    (inside : Option Bool) (ss : List (Text × Bool))
    → IsLast inside ss
    → All (λ (s : Text × Bool). s.1 ≡ false) (close_first ss)
closed-after inside [] h = absurd h
closed-after inside ((q, o) ∷ ss) h = (refl, h.2)

journal_step-IsLast :
    (j : Journal) (e : JournalEvent)
    → IsLast j.inside j.streams
    → IsLast (journal_step j e).inside (journal_step j e).streams
unfolding journal_step
journal_step-IsLast j (line age text) h = elim (Bool-cases (is_live age j.streams)) [
  | inl live ↦ rw live h
  | inr dead ↦ rw dead h
]
journal_step-IsLast j (toggle checked) h = elim (Option-cases j.inside) [
  | inl absent ↦ rw (absent, journal_step) h
  | inr (b, present) ↦ rw (present, journal_step) (refl, refl, closed-after j.inside j.streams h)
]

journal_run-IsLast :
    (j : Journal) (es : List JournalEvent)
    → IsLast j.inside j.streams
    → IsLast (journal_run j es).inside (journal_run j es).streams
unfolding journal_run
journal_run-IsLast j [] h = h
journal_run-IsLast j (e ∷ es) h =
    journal_run-IsLast (journal_step j e) es (journal_step-IsLast j e h)

dead-suc :
    (inside : Option Bool) (ss : List (Text × Bool)) (age : ℕ)
    → IsLast inside ss
    → is_live (suc age) ss ≡ false
dead-suc inside [] age h = absurd h
dead-suc inside (s ∷ ss) age h = go age ss h.2
  where
    go :
        (n : ℕ) (ss : List (Text × Bool))
        → All (λ (s : Text × Bool). s.1 ≡ false) ss
        → is_live n ss ≡ false
    go n [] h = refl
    go zero (s ∷ ss) (h, hs) = h
    go (suc n) (s ∷ ss) (h, hs) = go n ss hs

-- A journal that has connected once: after any toggles and lines, exactly the newest stream is open,
-- with the source that the checkbox asks for, and a late line of an older stream changes nothing.
pub journal_run-connect :
    (j : Journal) (es : List JournalEvent) (age : ℕ) (text : Text)
    → j.streams ≡ []
    → let k = journal_run (connect j) es in
      IsLast k.inside k.streams × (journal_step k (line (suc age) text) ≡ k)
unfolding journal_step
journal_run-connect j es age text fresh =
    let start : IsLast (connect j).inside (connect j).streams = (refl, refl, rw fresh tt) in
    let k = journal_run (connect j) es in
    let h = journal_run-IsLast (connect j) es start in
    (h, ground (arith, dead-suc k.inside k.streams age h))
