-- ===== src/Web/Format.antt =====
-- web/src/util.ts and FormatBytes of internal/metrics/metrics.go: byte counts for the page. The floats
-- of both languages hold a count up to 2 ^ 53 exactly, and division by 1024 is exact on them, so up to
-- there a value is the count over a power of 1024.
-- `toFixed(1)` takes the nearest tenth, the larger of two; Go's %.1f takes the even one of two.
pub mod Scaling
pub mod Units
use nixbox.Prelude.{if◌then◌else◌, leb, ltb, suc, zero, ℕ, ◌%◌, ◌*◌, ◌+◌, ◌-◌, ◌/◌, ◌==◌}

-- What is printed: a number of tenths, or a whole number below 1024, with the unit's place.
pub data Printed : Type 0 where
  whole : ℕ → Printed
  tenths : (tenth unit : ℕ) → Printed

-- while (n >= 1024 && i < 5) { n /= 1024; i++; }, on n / d with d = 1024 ^ i and `left` = 5 - i
unfoldable pub scale : (left : ℕ) → (n d i : ℕ) → ℕ × ℕ
scale zero n d i = (d, i)
scale (suc left) n d i =
    let rest = scale left n (d * 1024) (suc i) in if leb (1024 * d) n then rest else (d, i)

-- The nearest tenth to n / d, the larger of two.
abbrev pub to_fixed : ℕ → ℕ → ℕ
to_fixed n d = (20 * n + d) / (2 * d)

-- What follows the loop, with the test in front of it.
unfoldable pub fmt_scaled : ℕ → ℕ × ℕ → Printed
fmt_scaled n (d, i) =
    if n == 0 then whole 0 else if i == 0 then whole n else tenths (to_fixed n d) i

-- fmtBytes(n)
unfoldable pub fmt_bytes : ℕ → Printed
fmt_bytes n = fmt_scaled n (scale 5 n 1 0)

-- The nearest tenth to n / d, the even one of two.
abbrev pub round_even : ℕ → ℕ → ℕ
round_even n d =
    let k = to_fixed n d in
    if (20 * n + d) % (2 * d) == 0 then (if k % 2 == 0 then k else k - 1) else k

-- for v := n / unit; v >= unit; v /= unit { div *= unit; exp++ }
unfoldable pub go_scale : (fuel : ℕ) → (v div exp : ℕ) → ℕ × ℕ
go_scale zero v div exp = (div, exp)
go_scale (suc fuel) v div exp =
    let rest = go_scale fuel (v / 1024) (div * 1024) (suc exp) in
    if leb 1024 v then rest else (div, exp)

unfoldable pub format_scaled : ℕ → ℕ × ℕ → Printed
format_scaled n (div, exp) = if ltb n 1024 then whole n else tenths (round_even n div) (suc exp)

-- FormatBytes; a uint64 needs at most five rounds.
unfoldable pub format_bytes : ℕ → Printed
format_bytes n = format_scaled n (go_scale 6 (n / 1024) 1024 0)
