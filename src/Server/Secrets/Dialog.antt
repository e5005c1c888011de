-- ===== src/Server/Secrets/Dialog.antt =====
-- The Edit dialog of web/templates/secrets.html and web/src/dialogs.ts as
-- internal/server/handlers_secrets.go fills it and reads it.
use mathlib.Core.Option.{some-injective}
use nixbox.Prelude.{
  All, Bool, Bool-cases, List, Option, Text, [], ap, ap₂, arith, false, if◌then◌else◌, imp-All, inl,
  inr, ltb, map, none, refl, some, suc, sym, text_eq, text_eq_self, text_eq_sound, true, ℕ, ◌<◌,
  ◌==◌, ◌^◌, ◌||◌, ◌∙◌, ◌∷◌, ◌≡◌, ◌≢◌,
}
use nixbox.Nix.Ports.{decimal, digits_value, some_digits}
use nixbox.Nix.Ports.Numbers.{IsDigit, decimal-IsDigit, decimal_nonempty, digits_value-digits}
use nixbox.Store.Workloads.{Workload}
use nixbox.Store.Secrets.{Secret, has_mount}
use nixbox.Server.Secrets.Form.{MountType, Posted, supports}
use nixbox.Web.Dialogs.{Box, SecretForm, SecretRow, has_id, set_mounts}
use nixbox.Web.Dialogs.Mounts.{join_commas, IsId}

-- ParseInt(v, 10, 64) where the id of a row is looked up: a negative number is none.
abbrev pub in_int : Option ℕ → Option ℕ
in_int none = none
in_int (some n) = if ltb n (2 ^ 63) then some n else none

unfoldable pub parse_int : Text → Option ℕ
unfolding digits_value
parse_int [] = none
parse_int (c ∷ s) =
    if c == b'-'
    then none
    else if c == b'+'
    then in_int (some_digits s)
    else in_int (digits_value 0 (c ∷ s))

-- Targets of secretsData.
unfoldable pub targets : List MountType → List Workload → List Workload
unfolding supports
targets types [] = []
targets types (w ∷ ws) =
    let rest = targets types ws in if supports types w.typ then w ∷ rest else rest

-- The Edit button of a secret, and the boxes of the dialog, checked in some way.
abbrev pub row_button : Secret → SecretRow
row_button s = record {
  secret = s.name;
  owner = s.owner;
  group = s.group;
  mode = s.mode;
  mounts = join_commas (map decimal s.workload_ids);
}

abbrev pub boxes : (Workload → Bool) → List Workload → List Box
boxes on ws = map (λ (w : Workload). record { id = decimal w.id; checked = on w }) ws

-- What the form posts: the fields that are not disabled, and the values of the checked boxes.
unfoldable pub checked_ids : List Box → List (Option ℕ)
unfolding parse_int
checked_ids [] = []
checked_ids (b ∷ bs) =
    let rest = checked_ids bs in if b.checked then parse_int b.id ∷ rest else rest

unfoldable pub submit : SecretForm → Posted
unfolding checked_ids
submit f = record {
  name = if f.name_disabled then [] else f.name_value;
  owner = f.owner;
  group = f.group;
  mode = f.mode;
  value = f.value;
  mount = checked_ids f.mounts;
}

value_of_decimal : (n : ℕ) → digits_value 0 (decimal n) ≡ some n
unfolding decimal digits_value
value_of_decimal n = digits_value-digits (suc n) n [] (omega arith)

parse_int-digits : (s : Text) → s ≢ [] → All IsDigit s → parse_int s ≡ in_int (digits_value 0 s)
unfolding parse_int
parse_int-digits [] ne h = absurd (ne refl)
parse_int-digits (c ∷ s) ne ((low, high), hs) =
    let minus : (c == b'-') ≡ false = ground arith in
    let plus : (c == b'+') ≡ false = ground arith in rw minus (rw plus refl)

parse_int-decimal : (n : ℕ) → n < 2 ^ 63 → parse_int (decimal n) ≡ some n
parse_int-decimal n small =
    let fits : ltb n (2 ^ 63) ≡ true = ground arith in
    parse_int-digits (decimal n) (decimal_nonempty n) (decimal-IsDigit n)
    ∙ (ap in_int (value_of_decimal n) ∙ rw fits refl)

decimal-injective : (m n : ℕ) → decimal m ≡ decimal n → m ≡ n
decimal-injective m n e =
    some-injective _ _ (sym (value_of_decimal m) ∙ (ap (digits_value 0) e ∙ value_of_decimal n))

text_eq-decimal : (n i : ℕ) → text_eq (decimal n) (decimal i) ≡ (i == n)
text_eq-decimal n i = elim (Bool-cases (i == n)) [
  | inl y ↦ let same : i ≡ n = ground arith in rw (y, same) (text_eq_self (decimal n))
  | inr z ↦ elim (Bool-cases (text_eq (decimal n) (decimal i))) [
    | inl y ↦
        let same = decimal-injective n i (text_eq_sound (decimal n) (decimal i) y) in
        absurd (ground arith)
    | inr k ↦ k ∙ sym z
  ]
]

decimal-IsId : (n : ℕ) → IsId (decimal n)
decimal-IsId n = (
  decimal_nonempty n,
  imp-All IsDigit (λ c. c ≢ b',') (decimal n) (λ c (low, high) e. ground arith) (decimal-IsDigit n),
)

has_id-decimal : (n : ℕ) (ids : List ℕ) → has_id (decimal n) (map decimal ids) ≡ has_mount n ids
unfolding has_id has_mount
has_id-decimal n [] = refl
has_id-decimal n (i ∷ ids) = ap₂ (λ a b. a || b) (text_eq-decimal n i) (has_id-decimal n ids)

-- The ids of the workloads that are mounts.
unfoldable pub kept : List ℕ → List Workload → List ℕ
unfolding has_mount
kept ids [] = []
kept ids (w ∷ ws) = let rest = kept ids ws in if has_mount w.id ids then w.id ∷ rest else rest

pub checked_ids-set_mounts :
    (ids : List ℕ) (on : Workload → Bool) (ws : List Workload)
    → All (λ (w : Workload). w.id < 2 ^ 63) ws
    → checked_ids (set_mounts (map decimal ids) (boxes on ws)) ≡ map some (kept ids ws)
unfolding checked_ids set_mounts kept
checked_ids-set_mounts ids on [] h = refl
checked_ids-set_mounts ids on (w ∷ ws) (small, h) =
    let rest = checked_ids-set_mounts ids on ws h in
    elim (Bool-cases (has_mount w.id ids)) [
      | inl y ↦
          rw (has_id-decimal w.id ids, y) (ap₂ (λ o os. o ∷ os) (parse_int-decimal w.id small) rest)
      | inr n ↦ rw (has_id-decimal w.id ids, n) rest
    ]

pub map-decimal-IsId : (ids : List ℕ) → All IsId (map decimal ids)
map-decimal-IsId [] = tt
map-decimal-IsId (i ∷ ids) = (decimal-IsId i, map-decimal-IsId ids)
