-- ===== src/Server/Tail.antt =====
-- handleJobEvents of internal/server/sse.go. A poll is one turn of its loop, with what the log file and
-- the jobs table answer in it; the log is a text of codes.
pub mod Lines
pub mod Polls
pub mod Page
pub mod Stops
use nixbox.Prelude.{
  Bool, List, Option, Text, [], codes, drop, false, if◌then◌else◌, length, ltb, none, some, text_eq,
  true, ℕ, ◌&&◌, ◌++◌, ◌==◌, ◌∷◌,
}

-- JobByID: the status of the job's row, ErrNotFound, or another error.
pub data Found : Type 0 where
  found : Text → Found
  missing broken : Found

-- The log file as Stat finds it (`none` if Open or Stat fails), whether ReadAt succeeds, the answer of
-- JobByID, and whether the request is cancelled before the next tick.
pub record Poll : Type 0 where
  pub file : Option Text
  pub readable : Bool
  pub job : Found
  pub cancelled : Bool

-- The variables of the loop.
pub record Tail : Type 0 where
  pub offset : ℕ
  pub pending : Text

abbrev pub start : Tail
start = record { offset = 0; pending = [] }

abbrev pub push : ℕ → List Text → Text → List Text × Text
push c [] last = ([], c ∷ last)
push c (l ∷ ls) last = ((c ∷ l) ∷ ls, last)

-- strings.Split(pending, "\n"): the lines that are ended, and the last part.
unfoldable pub split : Text → List Text × Text
split [] = ([], [])
split (c ∷ cs) = let (ls, last) = split cs in if c == 10 then ([] ∷ ls, last) else push c ls last

-- The two formats of Fprintf.
abbrev pub append_wire : Text → Text
append_wire line = codes "event: append\ndata: " ++ line ++ codes "\n\n"

abbrev pub done_wire : Text → Text
done_wire status = codes "event: done\ndata: " ++ status ++ codes "\n\n"

abbrev pub wire : List Text → Text
wire [] = []
wire (l ∷ ls) = append_wire l ++ wire ls

abbrev pub read_file : Tail → Option Text → Bool → Tail × List Text
unfolding split
read_file s none readable = (s, [])
read_file s (some content) readable =
    if ltb s.offset (length content) && readable
    then (let (lines, last) = split (s.pending ++ drop s.offset content) in
        (record { offset = length content; pending = last }, lines))
    else (s, [])

unfoldable pub read_more : Tail → Poll → Tail × List Text
read_more s p = read_file s p.file p.readable

-- The status that ends the stream, or `none` while the job runs.
unfoldable pub ending : Found → Option Text
ending (found status) = if text_eq status (codes "running") then none else some status
ending missing = some (codes "failed")
ending broken = some (codes "failed")

abbrev pub flush : Text → List Text
flush [] = []
flush (c ∷ cs) = (c ∷ cs) ∷ []

-- What follows the sending of the new lines.
abbrev pub close_or : Option Text → Bool → Tail → Text × Bool → Text × Bool
close_or (some status) cancelled s rest = (wire (flush s.pending) ++ done_wire status, true)
close_or none true s rest = ([], true)
close_or none false s rest = rest

-- What is sent over these turns of the loop, and whether the handler has returned after them.
unfoldable pub serve : Tail → List Poll → Text × Bool
unfolding read_more ending
serve s [] = ([], false)
serve s (p ∷ ps) =
    let (t, lines) = read_more s p in
    let (sent, over) = close_or (ending p.job) p.cancelled t (serve t ps) in
    (wire lines ++ sent, over)

-- The error replies before the stream, or what it sends.
pub data Response : Type 0 where
  error : ℕ → Response
  stream : Text → Bool → Response

abbrev pub open_stream : Found → Bool → List Poll → Response
unfolding serve
open_stream missing flusher ps = error 404
open_stream broken flusher ps = error 500
open_stream (found status) false ps = error 500
open_stream (found status) true ps = let (sent, over) = serve start ps in stream sent over

-- The id as ParseInt reads it, the first JobByID, and whether the writer is a Flusher.
unfoldable pub handle_job_events : Option ℕ → Found → Bool → List Poll → Response
handle_job_events none first flusher ps = error 400
handle_job_events (some id) first flusher ps = open_stream first flusher ps
