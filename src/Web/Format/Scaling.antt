-- ===== src/Web/Format/Scaling.antt =====
-- The loops of both formatters of byte counts: fmtBytes of web/src/util.ts and FormatBytes of
-- internal/metrics/metrics.go.
use native.Mathlib.Nat.{div-div-eq-div-mul, le-div_iff_mul-le, div-lt_iff_lt-mul, pow-suc}
use mathlib.Core.Path.{subst}
use nixbox.Prelude.{
  Bool-cases, ap, arith, false, inl, inr, leb, leb_iff, refl, suc, sym, true, zero, ℕ, ◌*◌, ◌+◌,
  ◌/◌, ◌<◌, ◌^◌, ◌∙◌, ◌≡◌, ◌≤◌,
}
use nixbox.Web.Format.{
  fmt_scaled, format_scaled, whole, tenths, scale, to_fixed, fmt_bytes, round_even, go_scale,
  format_bytes,
}

leb_div : (n d : ℕ) → 0 < d → leb (1024 * d) n ≡ leb 1024 (n / d)
leb_div n d h = elim (Bool-cases (leb 1024 (n / d))) [
  | inl t ↦
      let le = (le-div_iff_mul-le h).0 ((leb_iff 1024 (n / d)).0 t) in
      (leb_iff (1024 * d) n).1 le ∙ sym t
  | inr f ↦ elim (Bool-cases (leb (1024 * d) n)) [
    | inl t ↦
        let le = (le-div_iff_mul-le h).1 ((leb_iff (1024 * d) n).0 t) in
        t ∙ sym ((leb_iff 1024 (n / d)).1 le)
    | inr g ↦ g ∙ sym f
  ]
]

-- go_scale divides the value where scale multiplies the divisor.
scale-go_scale : (left n d i : ℕ) → 0 < d → scale left n d i ≡ go_scale left (n / d) d i
unfolding scale go_scale
scale-go_scale zero n d i h = refl
scale-go_scale (suc left) n d i h = rw (leb_div n d h) (elim (Bool-cases (leb 1024 (n / d))) [
  | inl more ↦ rw more (
      scale-go_scale left n (d * 1024) (suc i) (omega arith)
      ∙ rw (div-div-eq-div-mul n d 1024) refl)
  | inr last ↦ rw last
])

-- Fuel beyond what the value needs changes nothing, and the exponent is counted from any start.
go_scale_more :
    (f v d i j : ℕ)
    → v < 1024 ^ suc f
    → ((go_scale (suc f) v d i).0 ≡ (go_scale f v d j).0)
      × ((go_scale (suc f) v d i).1 + j ≡ (go_scale f v d j).1 + i)
unfolding go_scale
go_scale_more zero v d i j h = ground arith
go_scale_more (suc f) v d i j h =
    let lt : v / 1024 < 1024 ^ suc f =
      (div-lt_iff_lt-mul (omega arith)).1 (subst (λ x. v < x) (pow-suc 1024 (suc f)) h) in
    let (div, exp) = go_scale_more f (v / 1024) (d * 1024) (suc i) (suc j) lt in
    elim (Bool-cases (leb 1024 v)) [
      | inl more ↦ rw more (div, omega (arith, exp))
      | inr last ↦ rw last (refl, omega arith)
    ]

scale_more :
    (left n d i : ℕ)
    → leb (1024 * d) n ≡ true
    → scale (suc left) n d i ≡ scale left n (d * 1024) (suc i)
unfolding scale
scale_more left n d i h = rw h

scale_stop : (left n d i : ℕ) → leb (1024 * d) n ≡ false → scale (suc left) n d i ≡ (d, i)
unfolding scale
scale_stop left n d i h = rw h

fmt_scaled_unit :
    (n : ℕ) (p : ℕ × ℕ) (i : ℕ)
    → 1024 ≤ n
    → p.1 ≡ i + 1
    → fmt_scaled n p ≡ tenths (to_fixed n p.0) (suc i)
unfolding fmt_scaled
fmt_scaled_unit n (d, j) i h e = ground arith

format_scaled_unit :
    (n : ℕ) (p : ℕ × ℕ) (d i : ℕ)
    → 1024 ≤ n
    → p.0 ≡ d
    → p.1 ≡ i
    → format_scaled n p ≡ tenths (round_even n d) (suc i)
unfolding format_scaled
format_scaled_unit n (c, j) d i h e f = rw (e, f) (ground arith)

-- d is the power of the unit's place that n reaches, and n does not reach the next one.
abbrev pub IsUnit : ℕ → ℕ → ℕ → Type 0
IsUnit n d i = (d ≡ 1024 ^ i) × (d ≤ n) × (n < 1024 * d)

pow_step : (d left : ℕ) → d * 1024 ^ suc (suc left) ≡ d * 1024 * 1024 ^ suc left
pow_step d left = rw (pow-suc 1024 (suc left)) (omega arith)

scale-IsUnit :
    (left n d i : ℕ)
    → d ≡ 1024 ^ i
    → d ≤ n
    → n < d * 1024 ^ suc left
    → let p = scale left n d i in IsUnit n p.0 p.1
unfolding scale
scale-IsUnit zero n d i e le lt = (e, le, omega arith)
scale-IsUnit (suc left) n d i e le lt = elim (Bool-cases (leb (1024 * d) n)) [
  | inl more ↦ rw more (
      scale-IsUnit left n (d * 1024) (suc i) (rw e (sym (pow-suc 1024 i)))
        (let le' = (leb_iff (1024 * d) n).0 more in omega (arith, le'))
        (subst (λ x. n < x) (pow_step d left) lt))
  | inr last ↦ rw last (e, le, ground arith)
]

-- For a count from 1024 up to 2 ^ 60 both print the same unit and round the same quotient to tenths,
-- the browser up on a tie and the server to an even digit.
pub units_agree :
    (n : ℕ)
    → 1024 ≤ n
    → n < 1024 ^ 6
    → (d : ℕ) × (i : ℕ) × IsUnit n d (suc i)
      × (fmt_bytes n ≡ tenths (to_fixed n d) (suc i))
      × (format_bytes n ≡ tenths (round_even n d) (suc i))
unfolding fmt_bytes format_bytes
units_agree n big h =
    let v = n / 1024 in
    let v_lt : v < 1024 ^ 5 =
      (div-lt_iff_lt-mul {k = 1024} {x = n} {y = 1024 ^ 5} (omega arith)).1 h in
    let first = scale_more 4 n 1 0 ((leb_iff 1024 n).1 big) in
    let scaled = first ∙ scale-go_scale 4 n 1024 1 (omega arith) in
    let (div, exp) = go_scale_more 4 v 1024 0 1 v_lt in
    let v_lt' : v < 1024 ^ 6 = omega arith in
    let unit : (scale 5 n 1 0).1 ≡ suc (go_scale 5 v 1024 0).1 =
      ap (λ (x : ℕ × ℕ). x.1) scaled ∙ omega (arith, exp) in
    let (div', exp') = go_scale_more 5 v 1024 0 0 v_lt' in
    (
      (go_scale 5 v 1024 0).0,
      (go_scale 5 v 1024 0).1,
      subst (λ e. IsUnit n (go_scale 5 v 1024 0).0 e) unit
          (subst (λ c. IsUnit n c (scale 5 n 1 0).1) (ap (λ (x : ℕ × ℕ). x.0) scaled ∙ sym div)
            (scale-IsUnit 5 n 1 0 refl (omega arith) h)),
      rw (scaled, div)
          (fmt_scaled_unit n (go_scale 4 v 1024 1) (go_scale 5 v 1024 0).1 big
            (omega (arith, exp))),
      format_scaled_unit n (go_scale 6 v 1024 0) (go_scale 5 v 1024 0).0 (go_scale 5 v 1024 0).1 big
          div' (omega (arith, exp')),
    )

pub bytes_agree :
    (n : ℕ) → leb 1024 n ≡ false → (fmt_bytes n ≡ whole n) × (format_bytes n ≡ whole n)
unfolding fmt_bytes format_bytes fmt_scaled format_scaled
bytes_agree n small = (rw (scale_stop 4 n 1 0 small) (ground arith), ground arith)
