-- ===== src/Web/Format/Units.antt =====
-- The formatters of web/src/util.ts and internal/metrics/metrics.go beside each other.
use native.Mathlib.Nat.{div-add-mod, mod-lt, pow-suc}
use mathlib.Core.Path.{subst}
use nixbox.Prelude.{
  Bool-cases, arith, inl, inr, leb, leb_iff, refl, suc, sym, ℕ, ◌%◌, ◌*◌, ◌+◌, ◌<◌, ◌==◌, ◌^◌, ◌≡◌,
  ◌≢◌, ◌≤◌, ◌⊎◌,
}
use nixbox.Web.Format.{whole, tenths, to_fixed, fmt_bytes, round_even, format_bytes}
use nixbox.Web.Format.Scaling.{IsUnit, units_agree, bytes_agree}

-- k tenths are the nearest to n / d, the larger of two.
abbrev pub RoundsUp : ℕ → ℕ → ℕ → Type 0
RoundsUp n d k = (2 * d * k ≤ 20 * n + d) × (20 * n + d < 2 * d * k + 2 * d)

-- Beside the nearest k, the larger of two: the same, or the even one of the two that are as near.
abbrev pub RoundsEven : ℕ → ℕ → ℕ → ℕ → Type 0
RoundsEven n d k even =
    ((20 * n + d ≢ 2 * d * k) × (even ≡ k))
    ⊎ ((20 * n + d ≡ 2 * d * k) × (even % 2 ≡ 0) × (even ≤ k) × (k ≤ even + 1))

to_fixed-RoundsUp : (n d : ℕ) → 0 < d → RoundsUp n d (to_fixed n d)
to_fixed-RoundsUp n d h =
    let whole_ = div-add-mod (20 * n + d) (2 * d) in
    let less = mod-lt (20 * n + d) {m = 2 * d} (omega arith) in
    (omega (arith, whole_), omega (arith, whole_, less))

round_even-RoundsEven : (n d : ℕ) → 0 < d → RoundsEven n d (to_fixed n d) (round_even n d)
round_even-RoundsEven n d h =
    let whole_ = div-add-mod (20 * n + d) (2 * d) in
    let k = to_fixed n d in
    elim (Bool-cases ((20 * n + d) % (2 * d) == 0)) [
      | inl tie ↦
          let none_left : (20 * n + d) % (2 * d) ≡ 0 = ground arith in
          rw tie (elim (Bool-cases (k % 2 == 0)) [
            | inl even ↦
                rw even
                  (inr (omega (arith, whole_, none_left), ground arith, omega arith, omega arith))
            | inr odd ↦
                let one : k % 2 ≡ 1 = ground arith in
                rw odd (
                  inr (
                    omega (arith, whole_, none_left),
                    omega (arith, one),
                    omega arith,
                    omega arith,
                  ))
          ])
      | inr apart ↦ rw apart (
          inl (
            λ e.
                let left_ : (20 * n + d) % (2 * d) ≡ 0 = omega (arith, whole_, e) in
                cc (left_, apart),
            refl,
          ))
    ]

-- A count below 1024 is printed as it is by both. For one from 1024 up to 2 ^ 53 both print tenths of the
-- unit 1024 ^ (i + 1) that the count reaches while it does not reach the next one: the browser the nearest
-- number of tenths to the quotient, the larger one of two that are as near, and the server the same number
-- but where two are as near, when it prints the even one.
pub fmt_bytes-format_bytes :
    (n : ℕ)
    → n ≤ 2 ^ 53
    → ((n < 1024) × (fmt_bytes n ≡ whole n) × (format_bytes n ≡ whole n))
      ⊎ ((i : ℕ) × (k : ℕ) × (even : ℕ) × (1024 ^ suc i ≤ n)
          × (n < 1024 ^ suc (suc i))
          × (fmt_bytes n ≡ tenths k (suc i))
          × (format_bytes n ≡ tenths even (suc i))
          × RoundsUp n (1024 ^ suc i) k
          × RoundsEven n (1024 ^ suc i) k even)
fmt_bytes-format_bytes n h = elim (Bool-cases (leb 1024 n)) [
  | inl big ↦ inr (in_units n (units_agree n ((leb_iff 1024 n).0 big) (omega arith)))
  | inr small ↦ let (f, g) = bytes_agree n small in inl (ground arith, f, g)
]
  where
    in_units :
        (n : ℕ)
        → ((d : ℕ) × (i : ℕ) × IsUnit n d (suc i)
            × (fmt_bytes n ≡ tenths (to_fixed n d) (suc i))
            × (format_bytes n ≡ tenths (round_even n d) (suc i)))
        → (i : ℕ) × (k : ℕ) × (even : ℕ) × (1024 ^ suc i ≤ n)
          × (n < 1024 ^ suc (suc i))
          × (fmt_bytes n ≡ tenths k (suc i))
          × (format_bytes n ≡ tenths even (suc i))
          × RoundsUp n (1024 ^ suc i) k
          × RoundsEven n (1024 ^ suc i) k even
    in_units n (d, i, (power, le, lt), f, g) =
        let some_ : 0 < d = omega (arith, le, lt) in
        (
          i,
          to_fixed n d,
          round_even n d,
          subst (λ x. x ≤ n) power le,
          subst (λ x. n < x) (sym (pow-suc 1024 (suc i)))
              (subst (λ x. n < x * 1024) power (omega (arith, lt))),
          f,
          g,
          subst (λ x. RoundsUp n x (to_fixed n d)) power (to_fixed-RoundsUp n d some_),
          subst (λ x. RoundsEven n x (to_fixed n d) (round_even n d)) power
              (round_even-RoundsEven n d some_),
        )
