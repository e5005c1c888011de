-- ===== src/Nix/Ports/Numbers.antt =====
-- The decimal digits of a port number, internal/nix/ports.go.
use nixbox.Prelude.{
  All, Bool-cases, Text, [], ap, arith, false, inl, inr, ltb, refl, some, suc, true, zero, ℕ, ◌%◌,
  ◌*◌, ◌+◌, ◌-◌, ◌/◌, ◌<◌, ◌==◌, ◌∙◌, ◌∷◌, ◌≡◌, ◌≢◌, ◌≤◌,
}
use nixbox.Nix.Ports.{is_digit, digits_value, in_range, port_number, digits, decimal}

abbrev pub IsDigit : ℕ → Type 0
IsDigit c = (b'0' ≤ c) × (c ≤ b'9')

pub digits-IsDigit : (fuel n : ℕ) (s : Text) → All IsDigit s → All IsDigit (digits fuel n s)
unfolding digits
digits-IsDigit zero n s h = h
digits-IsDigit (suc f) n s h = elim (Bool-cases (ltb n 10)) [
  | inl small ↦ rw small ((omega arith, omega arith), h)
  | inr big ↦ rw big (digits-IsDigit f (n / 10) _ ((omega arith, omega arith), h))
]

one_digit :
    (m k : ℕ) (s : Text) → k < 10 → digits_value m ((b'0' + k) ∷ s) ≡ digits_value (m * 10 + k) s
unfolding digits_value
one_digit m k s h =
    let digit : is_digit (b'0' + k) ≡ true = ground arith in
    let same : b'0' + k - b'0' ≡ k = omega arith in
    rw digit (ap (λ x. digits_value (m * 10 + x) s) same)

pub digits_value-digits :
    (fuel n : ℕ) (s : Text) → n < fuel → digits_value 0 (digits fuel n s) ≡ digits_value n s
unfolding digits
digits_value-digits zero n s h = absurd (omega arith)
digits_value-digits (suc f) n s h =
    let whole : n / 10 * 10 + n % 10 ≡ n = omega arith in
    elim (Bool-cases (ltb n 10)) [
      | inl small ↦
          let alone : 0 * 10 + n % 10 ≡ n = ground arith in
          rw small (one_digit 0 (n % 10) s (omega arith) ∙ ap (λ x. digits_value x s) alone)
      | inr big ↦ rw big (
          digits_value-digits f (n / 10) ((b'0' + n % 10) ∷ s) (ground arith)
          ∙ (one_digit (n / 10) (n % 10) s (omega arith) ∙ ap (λ x. digits_value x s) whole))
    ]

pub decimal-IsDigit : (n : ℕ) → All IsDigit (decimal n)
unfolding decimal
decimal-IsDigit n = digits-IsDigit (suc n) n [] tt

some_text : (fuel n c : ℕ) (s : Text) → digits fuel n (c ∷ s) ≢ []
unfolding digits
some_text zero n c s e = cc
some_text (suc f) n c s e = elim (Bool-cases (ltb n 10)) [
  | inl small ↦ cc (rw small at e)
  | inr big ↦ some_text f (n / 10) (b'0' + n % 10) (c ∷ s) (rw big at e)
]

pub decimal_nonempty : (n : ℕ) → decimal n ≢ []
unfolding decimal
decimal_nonempty n e = elim (Bool-cases (ltb n 10)) [
  | inl small ↦ cc (rw small at e)
  | inr big ↦ some_text n (n / 10) (b'0' + n % 10) [] (rw big at e)
]

-- Atoi takes a text that starts with a digit as it is.
port_number-digits :
    (s : Text) → s ≢ [] → All IsDigit s → port_number s ≡ in_range (digits_value 0 s)
unfolding port_number
port_number-digits [] ne h = absurd (ne refl)
port_number-digits (c ∷ s) ne ((low, high), hs) =
    let minus : (c == b'-') ≡ false = ground arith in
    let plus : (c == b'+') ≡ false = ground arith in rw minus (rw plus refl)

-- A port is read back from its decimal digits.
pub port_number-decimal : (n : ℕ) → 1 ≤ n → n ≤ 65535 → port_number (decimal n) ≡ some n
unfolding decimal digits_value
port_number-decimal n low high =
    port_number-digits (decimal n) (decimal_nonempty n) (decimal-IsDigit n)
    ∙ (ap in_range (digits_value-digits (suc n) n [] (omega arith)) ∙ ground arith)
