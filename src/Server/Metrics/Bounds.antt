-- ===== src/Server/Metrics/Bounds.antt =====
-- The percentages of internal/server/sse.go.
use nixbox.Nix.Ports.{fields}
use nixbox.Server.Tail.{split}
use nixbox.Auth.Redirect.{has_prefix}
use mathlib.Core.Option.{some-injective}
use nixbox.Prelude.{
  Bool-cases, List, Option, Text, [], ap, arith, codes, get_elem?, inl, inr, leb, length, ltb, none,
  refl, some, suc, sym, ℕ, ◌%◌, ◌++◌, ◌+◌, ◌-◌, ◌<◌, ◌^◌, ◌↔◌, ◌∙◌, ◌∷◌, ◌≡◌, ◌≤◌, ◌⊎◌,
}
use nixbox.Server.Metrics.{
  Sample, is_idle, remember, after_label, host_pct, sample, Previous, parse_cpu_stat, Usage,
  parse_uint, stream_samples, read_cpu, Percent, sum_fields, add_field, cpu_line, Reading,
}

add_field-bound :
    (i : ℕ) (o : Option ℕ) (sums : ℕ × ℕ)
    → (sums.0 < 2 ^ 64) × (sums.1 < 2 ^ 64)
    → ((add_field i o sums).0 < 2 ^ 64) × ((add_field i o sums).1 < 2 ^ 64)
add_field-bound i none sums h = h
add_field-bound i (some n) (total, busy) h =
    (omega arith, elim (Bool-cases (is_idle i)) [ inl y ↦ rw y h.1 | inr m ↦ rw m (omega arith) ])

sum_fields-bound :
    (i : ℕ) (fs : List Text) (sums : ℕ × ℕ)
    → (sums.0 < 2 ^ 64) × (sums.1 < 2 ^ 64)
    → ((sum_fields i fs sums).0 < 2 ^ 64) × ((sum_fields i fs sums).1 < 2 ^ 64)
unfolding sum_fields
sum_fields-bound i [] sums h = h
sum_fields-bound i (f ∷ fs) sums h =
    sum_fields-bound (suc i) fs _ (add_field-bound i (parse_uint f) sums h)

cpu_line-bound : (ls : List Text) → ((cpu_line ls).0 < 2 ^ 64) × ((cpu_line ls).1 < 2 ^ 64)
unfolding cpu_line
cpu_line-bound [] = (omega arith, omega arith)
cpu_line-bound (l ∷ ls) = elim (Bool-cases (has_prefix l (codes "cpu "))) [
  | inl t ↦ rw t (sum_fields-bound 0 (after_label (fields l)) (0, 0) (omega arith, omega arith))
  | inr f ↦ rw f (cpu_line-bound ls)
]

read_cpu-bound : (stat : Option Text) → ((read_cpu stat).0 < 2 ^ 64) × ((read_cpu stat).1 < 2 ^ 64)
unfolding read_cpu parse_cpu_stat
read_cpu-bound none = (omega arith, omega arith)
read_cpu-bound (some s) = cpu_line-bound ((split s).0 ++ (split s).1 ∷ [])

sample_at :
    (p : Option Previous) (rs : List Reading) (r q : Reading) (qs : List Reading)
    → get_elem? (stream_samples p (rs ++ r ∷ q ∷ qs)) (suc (length rs))
      ≡ some (sample (some (remember r)) q)
unfolding stream_samples
sample_at p [] r q qs = refl
sample_at p (s ∷ rs) r q qs = sample_at (some (remember s)) rs r q qs

-- The share of time between two readings in which total rises and busy is part of total.
host_pct_lem :
    (t b u c : ℕ) (x : Percent) (time : ℕ) (cpu : List Usage)
    → b ≤ t
    → c ≤ u
    → u < 2 ^ 64
    → host_pct (record { prev_time = time; prev_busy = b; prev_total = t; prev_cpu = cpu }) (u, c)
      ≡ some x
    → (t < u)
      × (x.den + t ≡ u)
      × ((x.num ≤ x.den) ↔ ((b ≤ c) × (c + t ≤ u + b)))
      × ((c < b) ⊎ (x.num + b ≡ c))
host_pct_lem t b u c x time cpu le le2 small e = elim (Bool-cases (ltb t u)) [
  | inl y ↦
      let same : record { num = (c + (2 ^ 64 - b)) % 2 ^ 64; den = u - t } ≡ x =
        some-injective _ _ (rw y at e) in
      let num : (c + (2 ^ 64 - b)) % 2 ^ 64 ≡ x.num = ap (λ (y : Percent). y.num) same in
      let den : u - t ≡ x.den = ap (λ (y : Percent). y.den) same in
      let rises : t < u = ground arith in
      (
        rises,
        omega arith,
        (λ h. (omega arith, omega arith), λ (h, k). omega arith),
        elim (Bool-cases (leb b c)) [
          | inl z ↦ let up : b ≤ c = ground arith in inr (omega arith)
          | inr z ↦ inl (ground arith)
        ],
      )
  | inr n ↦ absurd (let bad = rw n at e in cc)
]

-- Two samples of a stream that follow one another, whatever came before: if the busy time that is read is
-- part of the total in both, and the second shows a percentage, then the total has risen, and the
-- percentage is of that rise. It is at most 100 exactly if neither the busy time nor the idle time has
-- gone back; and unless the busy time has gone back, it is the rise of the busy time.
pub stream_samples-bound :
    (p : Option Previous) (rs : List Reading) (r q : Reading) (qs : List Reading) (s : Sample)
    (x : Percent)
    → (read_cpu r.stat).1 ≤ (read_cpu r.stat).0
    → (read_cpu q.stat).1 ≤ (read_cpu q.stat).0
    → get_elem? (stream_samples p (rs ++ r ∷ q ∷ qs)) (suc (length rs)) ≡ some s
    → s.cpu_pct ≡ some x
    → let (total, busy) = read_cpu r.stat in
      let (total_, busy_) = read_cpu q.stat in
      (total < total_)
      × (x.den + total ≡ total_)
      × ((x.num ≤ x.den) ↔ ((busy ≤ busy_) × (busy_ + total ≤ total_ + busy)))
      × ((busy_ < busy) ⊎ (x.num + busy ≡ busy_))
unfolding remember sample
stream_samples-bound p rs r q qs s x le le_ at_ shows =
    let same : sample (some (remember r)) q ≡ s =
      some-injective _ _ (sym (sample_at p rs r q qs) ∙ at_) in
    host_pct_lem (read_cpu r.stat).0 (read_cpu r.stat).1 (read_cpu q.stat).0 (read_cpu q.stat).1 x
      r.now r.usages le le_ (read_cpu-bound q.stat).0 (ap (λ (s : Sample). s.cpu_pct) same ∙ shows)
