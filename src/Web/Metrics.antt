-- ===== src/Web/Metrics.antt =====
-- web/src/metrics.ts: the live metrics of the dashboard and of a workload's page. A number is an exact
-- fraction; what a float operation makes of one is the parameter `round`. A stream that fails is opened
-- again by the browser, so a page only ever sees samples.
pub mod Stream
use mathlib.Core.Option
use nixbox.Prelude.{
  Bool, List, Option, Text, [], codes, false, get_elem?, if◌then◌else◌, ltb, map, none, not, some,
  suc, zero, ℕ, ◌&&◌, ◌*◌, ◌++◌, ◌+◌, ◌/◌, ◌==◌, ◌∷◌,
}
use nixbox.Web.Format.{Printed, fmt_bytes}

-- num / (den + 1), with its sign.
pub record Number : Type 0 where
  pub negative : Bool
  pub num : ℕ
  pub den : ℕ

abbrev pub zero_number : Number
zero_number = record { negative = false; num = 0; den = 0 }

abbrev pub hundred : Number
hundred = record { negative = false; num = 100; den = 0 }

-- The host's and a container's share of a sample; `none` in a percentage is null, and in `containers`
-- an absent list.
pub record HostSample : Type 0 where
  pub load1 : Number
  pub load5 : Number
  pub load15 : Number
  pub cpu_pct : Option Number
  pub mem_used : ℕ
  pub mem_total : ℕ
  pub disk_used : ℕ
  pub disk_total : ℕ

pub record ContainerSample : Type 0 where
  pub name : Text
  pub running : Bool
  pub cpu_pct : Option Number
  pub mem_bytes : ℕ
  pub tasks : ℕ

pub record MetricsSample : Type 0 where
  pub host : HostSample
  pub containers : Option (List ContainerSample)

-- What toFixed prints: a sign, and a count of units of its last digit.
pub record Fixed : Type 0 where
  pub minus : Bool
  pub units : ℕ

-- What an element shows; `dash` is "—".
pub data Cell : Type 0 where
  dash : Cell
  loads : Fixed → Fixed → Fixed → Cell
  percent : Fixed → Cell
  bytes : Printed → Cell
  of_total : (used total : Printed) → Cell
  count : ℕ → Cell

pub record ContainerRow : Type 0 where
  pub href : Text
  pub dot_on : Bool
  pub name : Text
  pub cpu : Cell
  pub mem : Cell
  pub tasks : Cell

-- A row of #container-metrics: a container, or the notice that there is none.
pub data Row : Type 0 where
  no_containers : Row
  container : ContainerRow → Row

-- The cards and the table of the dashboard. A bar is its width in percent, `none` if the page has no
-- such element.
pub record Board : Type 0 where
  pub load : Cell
  pub cpu : Cell
  pub mem : Cell
  pub disk : Cell
  pub cpu_bar : Option Number
  pub mem_bar : Option Number
  pub disk_bar : Option Number
  pub rows : List Row

-- v.toFixed(d) for 10 ^ d = scale: the nearest, the larger of two in size.
unfoldable pub to_fixed_at : ℕ → Number → Fixed
to_fixed_at scale v = record {
  minus = v.negative && not (v.num == 0);
  units = (2 * scale * v.num + suc v.den) / (2 * suc v.den);
}

-- fmtPct(v)
unfoldable pub fmt_pct : Option Number → Cell
unfolding to_fixed_at
fmt_pct none = dash
fmt_pct (some v) = percent (to_fixed_at 1 v)

-- v || 0
abbrev pub or_zero : Option Number → Number
or_zero none = zero_number
or_zero (some v) = if v.num == 0 then zero_number else v

-- Math.max(0, v)
abbrev pub max_zero : Number → Number
max_zero v = if v.negative && not (v.num == 0) then zero_number else v

-- Math.min(100, v)
abbrev pub min_hundred : Number → Number
min_hundred v = if not v.negative && ltb (100 * suc v.den) v.num then hundred else v

-- The width that setBar gives.
unfoldable pub bar_width : Option Number → Number
bar_width v = min_hundred (max_zero (or_zero v))

-- setBar, on an element that may be missing.
unfoldable pub set_bar : Option Number → Option Number → Option Number
unfolding bar_width
set_bar v bar = Option.map (λ _. bar_width v) bar

unfoldable pub row_of : ContainerSample → Row
unfolding fmt_pct fmt_bytes
row_of c = container (record {
  href = codes "/workloads/" ++ c.name;
  dot_on = c.running;
  name = c.name;
  cpu = fmt_pct c.cpu_pct;
  mem = bytes (fmt_bytes c.mem_bytes);
  tasks = if c.running then count c.tasks else dash;
})

unfoldable pub rows_of : Option (List ContainerSample) → List Row
unfolding row_of
rows_of none = no_containers ∷ []
rows_of (some []) = no_containers ∷ []
rows_of (some (c ∷ cs)) = map row_of (c ∷ cs)

-- The click listener of the table: where a click in the row at `i` leads, `on_link` if it hit the name,
-- which the browser follows by itself.
unfoldable pub on_row_click : (on_link : Bool) → ℕ → Board → Option Text
on_row_click on_link i b = if on_link then none else elim (get_elem? b.rows i) [
  | none ↦ none
  | some no_containers ↦ none
  | some (container r) ↦ some r.href
]

module _ (round : Number → Number) where
  -- total ? (used / total) * 100 : 0
  unfoldable pub ratio : (used total : ℕ) → Number
  ratio used zero = zero_number
  ratio used (suc t) =
      let quotient = round (record { negative = false; num = used; den = t }) in
      round (record quotient { num = quotient.num * 100 })

  -- The sample listener of watchMetrics.
  unfoldable pub on_sample : MetricsSample → Board → Board
  unfolding ratio set_bar rows_of
  on_sample s b =
      let h = s.host in
      record {
        load = loads (to_fixed_at 100 h.load1) (to_fixed_at 100 h.load5) (to_fixed_at 100 h.load15);
        cpu = fmt_pct h.cpu_pct;
        cpu_bar = set_bar h.cpu_pct b.cpu_bar;
        mem = of_total (fmt_bytes h.mem_used) (fmt_bytes h.mem_total);
        mem_bar = set_bar (some (ratio h.mem_used h.mem_total)) b.mem_bar;
        disk = of_total (fmt_bytes h.disk_used) (fmt_bytes h.disk_total);
        disk_bar = set_bar (some (ratio h.disk_used h.disk_total)) b.disk_bar;
        rows = rows_of s.containers;
      }

  unfoldable pub run : Board → List MetricsSample → Board
  unfolding on_sample
  run b [] = b
  run b (s ∷ ss) = run (on_sample s b) ss

-- The card of one workload.
pub record Card : Type 0 where
  pub cpu : Cell
  pub mem : Cell
  pub tasks : Cell

-- The sample listener of watchWorkloadMetrics.
unfoldable pub on_workload_sample : ContainerSample → Card
unfolding fmt_pct
on_workload_sample c = record {
  cpu = if c.running then fmt_pct c.cpu_pct else dash;
  mem = if c.running then bytes (fmt_bytes c.mem_bytes) else dash;
  tasks = if c.running then count c.tasks else dash;
}
