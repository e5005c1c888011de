-- ===== src/Server/Tail/Page.antt =====
-- handleJobEvents of internal/server/sse.go with watchJob of web/src/jobs.ts: what the browser shows.
-- EventSource is the browser's; what it delivers is a parameter.
use nixbox.Prelude.{
  All, All-append, Bool-cases, List, Text, [], ap, append-nil, append_assoc, arith, codes, false,
  if◌then◌else◌, inl, inr, map, refl, some, sym, true, ℕ, ◌++◌, ◌+◌, ◌==◌, ◌∙◌, ◌∷◌, ◌≡◌,
}
use nixbox.Server.Tail.{
  open_stream, start, stream, found, wire, handle_job_events, done_wire, append_wire, flush, push,
  split, Poll,
}
use nixbox.Server.Tail.Lines.{lines_of}
use nixbox.Server.Tail.Polls.{IsOver, IsQuiet, serve_lem}
use nixbox.Web.Streams.{
  watch, job_step, watch_job, JobEvent, badge_of, done, append, job_run, JobLog,
}
use nixbox.Web.Streams.Follow.{job_step_live}

-- Neither a line feed nor a carriage return.
abbrev pub IsInline : ℕ → Type 0
IsInline c = ((c == 10) ≡ false) × ((c == 13) ≡ false)

abbrev NoReturn : Text → Type 0
NoReturn t = All (λ c. (c == 13) ≡ false) t

-- Every line with its newline.
abbrev ended_lines : List Text → Text
ended_lines [] = []
ended_lines (l ∷ ls) = l ++ codes "\n" ++ ended_lines ls

-- A newline, if the text has an unfinished last line.
abbrev missing_newline : Text → Text
missing_newline [] = []
missing_newline (c ∷ []) = if c == 10 then [] else codes "\n"
missing_newline (c ∷ d ∷ t) = missing_newline (d ∷ t)

push-IsInline :
    (c : ℕ) (ls : List Text) (last : Text)
    → IsInline c
    → All (All IsInline) ls × All IsInline last
    → All (All IsInline) (push c ls last).0 × All IsInline (push c ls last).1
push-IsInline c [] last h (hs, hl) = (tt, (h, hl))
push-IsInline c (l ∷ ls) last h ((hl, hs), ht) = (((h, hl), hs), ht)

split-IsInline : (t : Text) → NoReturn t → All (All IsInline) (split t).0 × All IsInline (split t).1
unfolding split
split-IsInline [] h = (tt, tt)
split-IsInline (c ∷ cs) (h, hs) = elim (Bool-cases (c == 10)) [
  | inl t ↦ let (ls, last) = split-IsInline cs hs in rw t ((tt, ls), last)
  | inr f ↦ rw f (push-IsInline c (split cs).0 (split cs).1 (f, h) (split-IsInline cs hs))
]

flush-IsInline : (t : Text) → All IsInline t → All (All IsInline) (flush t)
flush-IsInline [] h = tt
flush-IsInline (c ∷ cs) h = (h, tt)

lines_of-IsInline : (t : Text) → NoReturn t → All (All IsInline) (lines_of t)
lines_of-IsInline t h =
    let (ls, last) = split-IsInline t h in
    All-append (All IsInline) (split t).0 (flush (split t).1) ls (flush-IsInline (split t).1 last)

ended-push :
    (c d : ℕ) (ls : List Text) (last rest : Text)
    → ended_lines (ls ++ flush last) ≡ d ∷ rest
    → ended_lines ((push c ls last).0 ++ flush (push c ls last).1) ≡ c ∷ d ∷ rest
ended-push c d [] [] rest e = absurd (cc)
ended-push c d [] (x ∷ xs) rest e = ap (λ t. c ∷ t) e
ended-push c d (l ∷ ls) last rest e = ap (λ t. c ∷ t) e

ended_lines-lines_of : (t : Text) → ended_lines (lines_of t) ≡ t ++ missing_newline t
unfolding split
ended_lines-lines_of [] = refl
ended_lines-lines_of (c ∷ []) = elim (Bool-cases (c == 10)) [
  | inl t ↦ let is_newline : c ≡ 10 = ground arith in rw t (ap (λ n. n ∷ []) (sym is_newline))
  | inr f ↦ rw f refl
]
ended_lines-lines_of (c ∷ d ∷ t) = elim (Bool-cases (c == 10)) [
  | inl e ↦
      let is_newline : c ≡ 10 = ground arith in
      rw e (rw is_newline (ap (λ r. 10 ∷ r) (ended_lines-lines_of (d ∷ t))))
  | inr f ↦ rw f (
      ended-push c d (split (d ∷ t)).0 (split (d ∷ t)).1 (t ++ missing_newline (d ∷ t))
        (ended_lines-lines_of (d ∷ t)))
]

job_run_done :
    (p : JobLog) (ls : List Text) (status : Text)
    → p.watching ≡ true
    → p.streaming ≡ true
    → job_run p (map append ls ++ done status ∷ []) ≡ record p {
      text = p.text ++ ended_lines ls;
      streaming = false;
      badge = badge_of status p.badge;
    }
unfolding job_run
job_run_done p [] status w s = (job_step_live p w s).2 status ∙ rw (append-nil p.text) refl
job_run_done p (l ∷ ls) status w s =
    ap (λ q. job_run q (map append ls ++ done status ∷ [])) ((job_step_live p w s).1 l)
    ∙ (job_run_done (record p { text = p.text ++ l ++ codes "\n" }) ls status w s
        ∙ ap (λ t. record p { text = t; streaming = false; badge = badge_of status p.badge })
            (simp append_assoc))

module _ (events_of : Text → List JobEvent)
    (events_of-append : (line rest : Text)
      → All IsInline line
      → events_of (append_wire line ++ rest) ≡ append line ∷ events_of rest)
    (events_of-done : (status : Text)
      → All IsInline status
      → events_of (done_wire status) ≡ done status ∷ []) where
  events_of-wire :
      (ls : List Text) (status : Text)
      → All (All IsInline) ls
      → All IsInline status
      → events_of (wire ls ++ done_wire status) ≡ map append ls ++ done status ∷ []
  events_of-wire [] status h hs = events_of-done status hs
  events_of-wire (l ∷ ls) status (h, hs) ht =
      ap events_of (append_assoc (append_wire l) (wire ls) (done_wire status))
      ∙ (events_of-append l (wire ls ++ done_wire status) h
          ∙ ap (λ es. append l ∷ es) (events_of-wire ls status hs ht))

  -- A page without a stream asks for a job's log. Polls find the job running and, where they can read
  -- the log file, a beginning of the log; then one poll reads the whole log, which has no carriage
  -- return, and finds the job ended, or its row gone or not to be read, which counts as failed. The handler then returns, whatever polls were to
  -- follow; and when an EventSource that delivers the two formats as events has delivered what it sent,
  -- the page shows the whole log, each line once, its last line ended by a newline, and the badge
  -- shows the job's final status.
  pub handle_job_events-job_run :
      (page : JobLog) (id : ℕ) (first log status : Text) (qs : List Poll) (p : Poll)
      (later : List Poll)
      → page.watching ≡ false
      → NoReturn log
      → All IsInline status
      → All (IsQuiet log) qs
      → IsOver status p.job
      → p.file ≡ some log
      → p.readable ≡ true
      → (sent : Text) × (handle_job_events (some id) (found first) true (qs ++ p ∷ later)
          ≡ stream sent true)
        × (job_run page (watch ∷ events_of sent) ≡ record {
          watching = true;
          opened = page.opened + 1;
          streaming = false;
          text = page.text ++ (log ++ missing_newline log);
          badge = badge_of status page.badge;
        })
  unfolding handle_job_events open_stream split job_run watch_job job_step
  handle_job_events-job_run page id first log status qs p later w plain hs quiet over file ok =
      let sent = wire (lines_of log) ++ done_wire status in
      let opened = record page { watching = true; opened = page.opened + 1; streaming = true } in
      (
        sent,
        ap (λ r. stream r.0 r.1) (serve_lem log status start qs p later refl quiet over file ok),
        rw (w, events_of-wire (lines_of log) status (lines_of-IsInline log plain) hs)
            (job_run_done opened (lines_of log) status refl refl
              ∙ rw (ended_lines-lines_of log) refl),
      )
