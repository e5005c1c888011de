-- ===== src/Tests/Board.antt =====
-- The dashboard's metrics and the port rows of the save form.
use nixbox.Prelude.{
  List, Text, [], arith, codes, false, none, refl, some, suc, true, ℕ, ◌*◌, ◌++◌, ◌/◌, ◌∷◌, ◌≡◌,
}
use nixbox.Nix.Ports.Fields.{IsHostPort}
use nixbox.Nix.Ports.{less, HostPort}
use nixbox.Web.Metrics.{
  Number, HostSample, ContainerSample, MetricsSample, Board, Cell, dash, no_containers, zero_number,
  on_sample, on_row_click, to_fixed_at, Fixed,
}
use nixbox.Web.Metrics
use nixbox.Web.Metrics.Stream.{BarsIn, run-BarsIn}
use nixbox.Web.PortRows.{
  PortRow, row_of, empty_row, add_row, delete_row, add, fill, delete, edit, Event,
}
use nixbox.Web.PortRows

-- A round to thousandths, downwards.
abbrev round : Number → Number
round v = record v { num = v.num * 1000 / suc v.den; den = 999 }

abbrev whole : ℕ → Number
whole n = record { negative = false; num = n; den = 0 }

abbrev host : HostSample
host = record {
  load1 = record { negative = false; num = 5; den = 3 };
  load5 = whole 1;
  load15 = whole 0;
  cpu_pct = some (whole 104);
  mem_used = 3;
  mem_total = 2;
  disk_used = 7;
  disk_total = 0;
}

abbrev site : ContainerSample
site = record { name = codes "web"; running = true; cpu_pct = none; mem_bytes = 2048; tasks = 3 }

abbrev quiet : MetricsSample
quiet = record { host = record host { cpu_pct = none }; containers = none }

abbrev loud : MetricsSample
loud = record { host = host; containers = some (site ∷ []) }

-- A page without the bar of the disk.
abbrev blank : Board
blank = record {
  load = dash;
  cpu = dash;
  mem = dash;
  disk = dash;
  cpu_bar = some zero_number;
  mem_bar = some zero_number;
  disk_bar = none;
  rows = no_containers ∷ [];
}

run-BarsIn_example : BarsIn (Metrics.run round blank (quiet ∷ loud ∷ []))
run-BarsIn_example = run-BarsIn round blank (quiet ∷ []) loud

load_of_one_and_a_quarter : to_fixed_at 100 host.load1 ≡ record { minus = false; units = 125 }
unfolding to_fixed_at
load_of_one_and_a_quarter = refl

abbrev encode : Text → List PortRow → Text
encode content [] = codes "content=" ++ content
encode content (r ∷ rows) = encode content rows ++ b'&' ∷ r.port ++ b'/' ∷ r.proto

abbrev http : HostPort
http = record { port = 80; proto = codes "tcp" }

abbrev dns : HostPort
dns = record { port = 53; proto = codes "udp" }

abbrev changes : List Event
changes = add ∷ fill 1 (row_of dns) ∷ edit (codes "x") ∷ delete 0 ∷ []

http_ok : IsHostPort http
http_ok = record { low = omega arith; high = omega arith; known = refl }

dns_ok : IsHostPort dns
dns_ok = record { low = omega arith; high = omega arith; known = refl }

less_ports : less dns http ≡ false
unfolding less
less_ports = refl
