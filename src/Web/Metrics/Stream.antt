-- ===== src/Web/Metrics/Stream.antt =====
-- The dashboard of web/src/metrics.ts after any stream of samples.
use mathlib.Core.Option
use mathlib.Core.Path.{subst}
use nixbox.Prelude.{
  List, Option, Option-cases, Text, [], ap, arith, codes, false, get_elem?, inl, inr, map, none,
  refl, some, suc, sym, zero, ℕ, ◌*◌, ◌++◌, ◌∙◌, ◌∷◌, ◌≡◌, ◌≤◌,
}
use nixbox.Web.Metrics.{
  Number, HostSample, ContainerSample, MetricsSample, Row, no_containers, container, Board,
  bar_width, set_bar, row_of, rows_of, on_row_click, ratio, on_sample, run,
}

-- From 0 to 100.
abbrev pub InBar : Number → Type 0
InBar v = (v.negative ≡ false) × (v.num ≤ 100 * suc v.den)

abbrev pub BarIn : Option Number → Type 0
BarIn none = Unit
BarIn (some v) = InBar v

abbrev pub BarsIn : Board → Type 0
BarsIn b = BarIn b.cpu_bar × BarIn b.mem_bar × BarIn b.disk_bar

bar_width-InBar : (v : Option Number) → InBar (bar_width v)
unfolding bar_width
bar_width-InBar none = ground arith
bar_width-InBar (some v) = ground arith

set_bar-BarIn : (v bar : Option Number) → BarIn (set_bar v bar)
unfolding set_bar
set_bar-BarIn v none = tt
set_bar-BarIn v (some w) = bar_width-InBar v

set_bar_twice : (v w bar : Option Number) → set_bar v (set_bar w bar) ≡ set_bar v bar
unfolding set_bar
set_bar_twice v w none = refl
set_bar_twice v w (some x) = refl

-- The containers of a sample; an absent list is an empty one.
abbrev pub listed : Option (List ContainerSample) → List ContainerSample
listed none = []
listed (some cs) = cs

abbrev lead : Option Row → Option Text
lead none = none
lead (some no_containers) = none
lead (some (container r)) = some r.href

lead-row_of :
    (cs : List ContainerSample) (i : ℕ)
    → lead (get_elem? (map row_of cs) i)
      ≡ Option.map (λ (c : ContainerSample). codes "/workloads/" ++ c.name) (get_elem? cs i)
unfolding row_of
lead-row_of [] i = refl
lead-row_of (c ∷ cs) zero = refl
lead-row_of (c ∷ cs) (suc i) = lead-row_of cs i

lead-rows_of :
    (cs : Option (List ContainerSample)) (i : ℕ)
    → lead (get_elem? (rows_of cs) i)
      ≡ Option.map
          (λ (c : ContainerSample). codes "/workloads/" ++ c.name)
          (get_elem? (listed cs) i)
unfolding rows_of
lead-rows_of none zero = refl
lead-rows_of none (suc i) = refl
lead-rows_of (some []) zero = refl
lead-rows_of (some []) (suc i) = refl
lead-rows_of (some (c ∷ cs)) i = lead-row_of (c ∷ cs) i

on_row_click-lead : (i : ℕ) (b : Board) → on_row_click false i b ≡ lead (get_elem? b.rows i)
unfolding on_row_click
on_row_click-lead i b = elim (Option-cases (get_elem? b.rows i)) [
  | inl absent_ ↦ rw (absent_, on_row_click) refl
  | inr (no_containers, e) ↦ rw (e, on_row_click) refl
  | inr (container r, e) ↦ rw (e, on_row_click) refl
]

module _ (round : Number → Number) where
  run-append :
      (b : Board) (ss : List MetricsSample) (s : MetricsSample)
      → run round b (ss ++ s ∷ []) ≡ on_sample round s (run round b ss)
  unfolding run
  run-append b [] s = refl
  run-append b (t ∷ ss) s = run-append (on_sample round t b) ss s

  on_sample-BarsIn : (s : MetricsSample) (b : Board) → BarsIn (on_sample round s b)
  unfolding on_sample
  on_sample-BarsIn s b =
      let h = s.host in
      (
        set_bar-BarIn h.cpu_pct b.cpu_bar,
        set_bar-BarIn (some (ratio round h.mem_used h.mem_total)) b.mem_bar,
        set_bar-BarIn (some (ratio round h.disk_used h.disk_total)) b.disk_bar,
      )

  -- After any samples and one more, every bar that the page has is between 0 and 100 percent wide,
  -- whatever the samples say and however floats are rounded.
  pub run-BarsIn :
      (b : Board) (ss : List MetricsSample) (s : MetricsSample)
      → BarsIn (run round b (ss ++ s ∷ []))
  run-BarsIn b ss s = subst BarsIn (sym (run-append b ss s)) (on_sample-BarsIn s (run round b ss))

  on_sample_twice :
      (s t : MetricsSample) (b : Board)
      → on_sample round s (on_sample round t b) ≡ on_sample round s b
  unfolding on_sample
  on_sample_twice s t b =
      let mem = λ (h : HostSample). some (ratio round h.mem_used h.mem_total) in
      let disk = λ (h : HostSample). some (ratio round h.disk_used h.disk_total) in
      λ i. record (on_sample round s b) {
        cpu_bar = set_bar_twice s.host.cpu_pct t.host.cpu_pct b.cpu_bar i;
        mem_bar = set_bar_twice (mem s.host) (mem t.host) b.mem_bar i;
        disk_bar = set_bar_twice (disk s.host) (disk t.host) b.disk_bar i;
      }

  on_sample-run :
      (b : Board) (ss : List MetricsSample) (s : MetricsSample)
      → on_sample round s (run round b ss) ≡ on_sample round s b
  unfolding run
  on_sample-run b [] s = refl
  on_sample-run b (t ∷ ss) s = on_sample-run (on_sample round t b) ss s ∙ on_sample_twice s t b

  -- The dashboard shows the last sample and nothing of the ones before: it is as if that sample had
  -- been the first.
  pub run-last :
      (b : Board) (ss : List MetricsSample) (s : MetricsSample)
      → run round b (ss ++ s ∷ []) ≡ on_sample round s b
  run-last b ss s = run-append b ss s ∙ on_sample-run b ss s

  -- After any samples and one more, a click in the table beside the links leads to the page of the
  -- container that the last sample has at that place, and to no page where it has none.
  pub on_row_click-run :
      (b : Board) (ss : List MetricsSample) (s : MetricsSample) (i : ℕ)
      → on_row_click false i (run round b (ss ++ s ∷ []))
        ≡ Option.map
            (λ (c : ContainerSample). codes "/workloads/" ++ c.name)
            (get_elem? (listed s.containers) i)
  unfolding on_sample
  on_row_click-run b ss s i =
      ap (on_row_click false i) (run-append b ss s)
      ∙ (on_row_click-lead i (on_sample round s (run round b ss)) ∙ lead-rows_of s.containers i)
