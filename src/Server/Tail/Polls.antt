-- ===== src/Server/Tail/Polls.antt =====
-- What handleJobEvents of internal/server/sse.go sends up to the poll that finds the job ended.
use nixbox.Prelude.{
  All, Bool, Bool-cases, List, Option, Text, [], ap, append-nil, append_assoc, arith, codes, drop,
  false, inl, inr, length, ltb, none, refl, some, sym, text_eq, true, ◌&&◌, ◌++◌, ◌∙◌, ◌∷◌, ◌≡◌,
  ◌≤◌,
}
use nixbox.Server.Tail.{
  broken, missing, Found, found, done_wire, flush, wire, read_file, split, read_more, ending, serve,
  Tail, Poll,
}
use nixbox.Server.Tail.Lines.{
  drop-append, wire-split, drop_first, split_last, drop_all, lines_of-append, lines_of,
}

-- The file is not there yet, or holds what the log begins with.
abbrev pub IsPart : Text → Option Text → Type 0
IsPart log none = Unit
IsPart log (some c) = (more : Text) × (c ++ more ≡ log)

-- The job is there and runs, and the request is not cancelled.
abbrev pub GoesOn : Poll → Type 0
GoesOn p = (p.job ≡ found (codes "running")) × (p.cancelled ≡ false)

-- The job's row has another status, or is gone or not to be read, and then it counts as failed.
abbrev pub IsOver : Text → Found → Type 0
IsOver status (found s) = (s ≡ status) × (text_eq s (codes "running") ≡ false)
IsOver status missing = status ≡ codes "failed"
IsOver status broken = status ≡ codes "failed"

ending-IsOver : (status : Text) (job : Found) → IsOver status job → ending job ≡ some status
unfolding ending
ending-IsOver status (found st) (same, ended) = rw ended (ap some same)
ending-IsOver status missing same = ap some (sym same)
ending-IsOver status broken same = ap some (sym same)

-- A turn that goes on and finds no log file, or a beginning of the log.
abbrev pub IsQuiet : Text → Poll → Type 0
IsQuiet log p = GoesOn p × IsPart log p.file

-- No newline waits in the carried part.
abbrev IsCut : Tail → Type 0
IsCut s = split s.pending ≡ ([], s.pending)

-- What is still to be sent.
abbrev ahead : Text → Tail → Text
ahead log s = s.pending ++ drop s.offset log

-- A turn sends complete lines, and leaves the lines that follow.
abbrev Reads : Text → Tail → Tail × List Text → Type 0
Reads log s (t, lines) = (lines_of (ahead log s) ≡ lines ++ lines_of (ahead log t)) × IsCut t

read_file-Reads :
    (log : Text) (s : Tail) (file : Option Text) (readable : Bool)
    → IsCut s
    → IsPart log file
    → Reads log s (read_file s file readable)
unfolding read_file split
read_file-Reads log s none readable cut part = (refl, cut)
read_file-Reads log s (some c) readable cut (more, whole) =
    elim (Bool-cases (ltb s.offset (length c) && readable)) [
      | inl t ↦
          let long : s.offset ≤ length c = ground arith in
          let body = s.pending ++ drop s.offset c in
          let rest : drop (length c) log ≡ more =
            ap (drop (length c)) (sym whole) ∙ drop_first c more in
          let here : ahead log s ≡ body ++ more =
            ap (λ r. s.pending ++ drop s.offset r) (sym whole)
            ∙ (ap (λ r. s.pending ++ r) (drop-append s.offset c more long)
                ∙ sym (append_assoc s.pending (drop s.offset c) more)) in
          rw t (rw (here, rest) (lines_of-append body more), split_last body)
      | inr f ↦ rw f (refl, cut)
    ]

last_read :
    (log : Text) (s : Tail)
    → IsCut s
    → let (t, lines) = read_file s (some log) true in
      lines ++ flush t.pending ≡ lines_of (ahead log s)
unfolding read_file split
last_read log s cut = elim (Bool-cases (ltb s.offset (length log))) [
  | inl t ↦ rw t refl
  | inr f ↦ rw (f, drop_all s.offset log (ground arith), append-nil s.pending, cut) refl
]

pub serve_lem :
    (log status : Text) (s : Tail) (qs : List Poll) (p : Poll) (later : List Poll)
    → IsCut s
    → All (IsQuiet log) qs
    → IsOver status p.job
    → p.file ≡ some log
    → p.readable ≡ true
    → serve s (qs ++ p ∷ later) ≡ (wire (lines_of (ahead log s)) ++ done_wire status, true)
unfolding serve read_more ending
serve_lem log status s [] p later cut quiet over file ok =
    rw (ending-IsOver status p.job over, file, ok, sym (last_read log s cut))
      (let (t, lines) = read_file s (some log) true in
        ap (λ r. (r, true)) (wire-split lines (flush t.pending) (done_wire status)))
serve_lem log status s (q ∷ qs) p later cut (((runs, stays), part), quiet) over file ok =
    let (split_, cut_) = read_file-Reads log s q.file q.readable cut part in
    let t = (read_more s q).0 in
    rw (ap ending runs, stays, serve_lem log status t qs p later cut_ quiet over file ok, split_)
      (ap (λ r. (r, true))
        (wire-split (read_more s q).1 (lines_of (ahead log t)) (done_wire status)))
