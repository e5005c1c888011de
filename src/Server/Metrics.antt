-- ===== src/Server/Metrics.antt =====
-- handleMetrics of internal/server/sse.go with parseCPUStat of internal/metrics/metrics.go: the
-- percentages of a stream of samples. A percentage is an exact fraction of one; a time is a count of
-- nanoseconds that does not go back.
pub mod Bounds
use nixbox.Prelude.{
  Bool, List, Option, Text, [], codes, if◌then◌else◌, leb, ltb, map, none, some, suc, text_eq, ℕ,
  ◌%◌, ◌&&◌, ◌++◌, ◌+◌, ◌-◌, ◌==◌, ◌^◌, ◌||◌, ◌∷◌,
}
use nixbox.Auth.Redirect.{has_prefix}
use nixbox.Nix.Ports.{fields, digits_value}
use nixbox.Server.Tail.{split}

-- ParseUint(f, 10, 64)
abbrev pub in_word : Option ℕ → Option ℕ
in_word none = none
in_word (some n) = if ltb n (2 ^ 64) then some n else none

unfoldable pub parse_uint : Text → Option ℕ
unfolding digits_value
parse_uint s = if text_eq s [] then none else in_word (digits_value 0 s)

-- The loop over the fields of the cpu line, the sums modulo 2 ^ 64.
abbrev pub is_idle : ℕ → Bool
is_idle i = i == 3 || i == 4

abbrev pub add_field : ℕ → Option ℕ → ℕ × ℕ → ℕ × ℕ
add_field i none (total, busy) = (total, busy)
add_field i (some n) (total, busy) =
    ((total + n) % 2 ^ 64, if is_idle i then busy else (busy + n) % 2 ^ 64)

unfoldable pub sum_fields : ℕ → List Text → ℕ × ℕ → ℕ × ℕ
unfolding parse_uint
sum_fields i [] sums = sums
sum_fields i (f ∷ fs) sums = sum_fields (suc i) fs (add_field i (parse_uint f) sums)

abbrev pub after_label : List Text → List Text
after_label [] = []
after_label (f ∷ fs) = fs

unfoldable pub cpu_line : List Text → ℕ × ℕ
unfolding has_prefix sum_fields fields
cpu_line [] = (0, 0)
cpu_line (l ∷ ls) =
    let rest = cpu_line ls in
    if has_prefix l (codes "cpu ") then sum_fields 0 (after_label (fields l)) (0, 0) else rest

-- parseCPUStat
unfoldable pub parse_cpu_stat : Text → ℕ × ℕ
unfolding cpu_line split
parse_cpu_stat s = let (ls, last) = split s in cpu_line (ls ++ last ∷ [])

-- CPUTotal and CPUBusy of Sample, of what is read from /proc/stat.
unfoldable pub read_cpu : Option Text → ℕ × ℕ
unfolding parse_cpu_stat
read_cpu none = (0, 0)
read_cpu (some s) = parse_cpu_stat s

-- A workload's CPU time as Usages answers it, and its name; what is absent counts 0.
pub record Usage : Type 0 where
  pub name : Text
  pub cpu_nsec : ℕ

-- What one turn of the loop reads. A turn that cannot list the workloads ends the stream, and is left
-- out.
pub record Reading : Type 0 where
  pub now : ℕ
  pub stat : Option Text
  pub usages : List Usage

-- The variables of the loop; `none` before the first turn.
pub record Previous : Type 0 where
  pub prev_time : ℕ
  pub prev_busy : ℕ
  pub prev_total : ℕ
  pub prev_cpu : List Usage

-- num / den, times 100.
pub record Percent : Type 0 where
  pub num : ℕ
  pub den : ℕ

unfoldable pub find_usage : Text → List Usage → Option ℕ
find_usage name [] = none
find_usage name (u ∷ us) =
    let rest = find_usage name us in if text_eq u.name name then some u.cpu_nsec else rest

abbrev pub host_pct : Previous → ℕ × ℕ → Option Percent
host_pct p (total, busy) =
    if ltb p.prev_total total
    then some
        (record { num = (busy + (2 ^ 64 - p.prev_busy)) % 2 ^ 64; den = total - p.prev_total })
    else none

abbrev pub container_pct : (wall : ℕ) → Option ℕ → ℕ → Option Percent
container_pct wall none cpu = none
container_pct wall (some prev) cpu =
    if ltb 0 wall && leb prev cpu then some (record { num = cpu - prev; den = wall }) else none

unfoldable pub containers_pct : (wall : ℕ) → List Usage → List Usage → List (Text × Option Percent)
unfolding find_usage
containers_pct wall prev [] = []
containers_pct wall prev (u ∷ us) =
    (u.name, container_pct wall (find_usage u.name prev) u.cpu_nsec) ∷ containers_pct wall prev us

pub record Sample : Type 0 where
  pub cpu_pct : Option Percent
  pub containers : List (Text × Option Percent)

abbrev pub unknown : List Usage → List (Text × Option Percent)
unknown us = map (λ (u : Usage). (u.name, none)) us

unfoldable pub sample : Option Previous → Reading → Sample
unfolding read_cpu containers_pct
sample none r = record { cpu_pct = none; containers = unknown r.usages }
sample (some p) r = record {
  cpu_pct = host_pct p (read_cpu r.stat);
  containers = containers_pct (r.now - p.prev_time) p.prev_cpu r.usages;
}

unfoldable pub remember : Reading → Previous
unfolding read_cpu
remember r =
    let (total, busy) = read_cpu r.stat in
    record { prev_time = r.now; prev_busy = busy; prev_total = total; prev_cpu = r.usages }

-- The samples that are sent over these turns.
unfoldable pub stream_samples : Option Previous → List Reading → List Sample
unfolding sample remember
stream_samples p [] = []
stream_samples p (r ∷ rs) = sample p r ∷ stream_samples (some (remember r)) rs
