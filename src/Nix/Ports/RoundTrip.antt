-- ===== src/Nix/Ports/RoundTrip.antt =====
-- The loop of ParseHostPorts, internal/nix/ports.go, and its result.
use nixbox.Prelude.{
  All, All-append, Bool-cases, List, Option, Option-cases, Text, [], arith, false, inl, inr, none,
  some, text_eq, ℕ, ◌++◌, ◌==◌, ◌∷◌, ◌≡◌, ◌≤◌,
}
use nixbox.Nix.Ports.{
  proto_of, digits_value, sorted_result, some_digits, trim_space, HostPort, Parsed, parsed,
  invalid_port, invalid_protocol, format_host_ports, decode_host_ports, is_proto, Row, blank,
  bad_port, bad_protocol, declared, row, same_port, seen, unless_seen, rest_of, parse_rows,
  parse_host_ports, sort_host_ports, port_number, in_range,
}
use nixbox.Nix.Ports.Order.{
  IsSorted, IsDistinct, sort-All, sort-IsSorted, same_port_sym, sort-IsDistinct,
}
use nixbox.Nix.Ports.Fields.{IsHostPort, decode-format}

-- A row of the form that declares a port declares one that may be opened.
abbrev IsGood : Row → Type 0
IsGood blank = Unit
IsGood (bad_port t) = Unit
IsGood (bad_protocol t) = Unit
IsGood (declared hp) = IsHostPort hp

in_range-bounds : (o : Option ℕ) (n : ℕ) → in_range o ≡ some n → (1 ≤ n) × (n ≤ 65535)
in_range-bounds none n e = cc
in_range-bounds (some m) n e = ground arith

port_number-bounds : (s : Text) (n : ℕ) → port_number s ≡ some n → (1 ≤ n) × (n ≤ 65535)
unfolding port_number
port_number-bounds [] n e = cc
port_number-bounds (c ∷ s) n e = elim (Bool-cases (c == b'-')) [
  | inl minus ↦ cc (rw minus at e)
  | inr other ↦ elim (Bool-cases (c == b'+')) [
    | inl plus ↦ in_range-bounds (some_digits s) n (rw plus at (rw other at e))
    | inr digit ↦ in_range-bounds (digits_value 0 (c ∷ s)) n (rw digit at (rw other at e))
  ]
]

row-IsGood : (p : Text) (protos : List Text) → IsGood (row p protos)
unfolding row
row-IsGood p protos = elim (Bool-cases (text_eq (trim_space p) [])) [
  | inl t ↦ rw t tt
  | inr f ↦ rw f (elim (Option-cases (port_number (trim_space p))) [
    | inl bad ↦ rw (bad, row) tt
    | inr (n, e) ↦
        rw (e, row)
          (elim (Bool-cases (is_proto (proto_of protos))) [
            | inl known ↦
                let (low, high) = port_number-bounds (trim_space p) n e in
                rw known (record { low = low; high = high; known = known })
            | inr other ↦ rw other tt
          ])
  ])
]

IsDistinct-append :
    (hp : HostPort) (out : List HostPort)
    → seen hp out ≡ false
    → IsDistinct out
    → IsDistinct (out ++ hp ∷ [])
unfolding seen
IsDistinct-append hp [] h d = (tt, tt)
IsDistinct-append hp (q ∷ qs) h (k, ks) =
    let other : same_port hp q ≡ false = ground arith in
    let later : seen hp qs ≡ false = ground arith in
    (
      All-append (λ (r : HostPort). same_port q r ≡ false) qs (hp ∷ []) k
          (same_port_sym hp q other, tt),
      IsDistinct-append hp qs later ks,
    )

-- The ports that the rows have declared so far.
abbrev IsFine : Parsed → Type 0
IsFine (parsed out) = All IsHostPort out × IsDistinct out
IsFine (invalid_port t) = Unit
IsFine (invalid_protocol t) = Unit

unless_seen-IsFine :
    (hp : HostPort) (out : List HostPort)
    → IsHostPort hp
    → IsFine (parsed out)
    → IsFine (parsed (unless_seen hp out))
unless_seen-IsFine hp out g (v, d) = elim (Bool-cases (seen hp out)) [
  | inl t ↦ rw t (v, d)
  | inr f ↦ rw f (All-append IsHostPort out (hp ∷ []) v (g, tt), IsDistinct-append hp out f d)
]

next-IsFine :
    (r : Row) (out : List HostPort) (go : List HostPort → Parsed)
    → ((out : List HostPort) → IsFine (parsed out) → IsFine (go out))
    → IsGood r
    → IsFine (parsed out)
    → IsFine (elim r [
      | blank ↦ go out
      | bad_port t ↦ invalid_port t
      | bad_protocol t ↦ invalid_protocol t
      | declared hp ↦ go (unless_seen hp out)
    ])
next-IsFine blank out go keep g fine = keep out fine
next-IsFine (bad_port t) out go keep g fine = tt
next-IsFine (bad_protocol t) out go keep g fine = tt
next-IsFine (declared hp) out go keep g fine =
    keep (unless_seen hp out) (unless_seen-IsFine hp out g fine)

parse_rows-IsFine :
    (ports protos : List Text) (out : List HostPort)
    → IsFine (parsed out)
    → IsFine (parse_rows ports protos out)
unfolding parse_rows
parse_rows-IsFine [] protos out fine = fine
parse_rows-IsFine (p ∷ ps) protos out fine =
    next-IsFine (row p protos) out (parse_rows ps (rest_of protos))
      (λ out' f. parse_rows-IsFine ps (rest_of protos) out' f) (row-IsGood p protos) fine

sorted_result-cases :
    (r : Parsed) (ps : List HostPort)
    → IsFine r
    → sorted_result r ≡ parsed ps
    → (out : List HostPort) × (ps ≡ sort_host_ports out) × All IsHostPort out × IsDistinct out
sorted_result-cases (parsed out) ps (v, d) e = (out, cc, v, d)
sorted_result-cases (invalid_port t) ps f e = cc
sorted_result-cases (invalid_protocol t) ps f e = cc

-- What ParseHostPorts returns are ports from 1 to 65535 with tcp or udp, in order, none of them twice,
-- whatever the rows hold.
pub parse_host_ports-IsSorted :
    (ports protos : List Text) (ps : List HostPort)
    → parse_host_ports ports protos ≡ parsed ps
    → All IsHostPort ps × IsSorted ps × IsDistinct ps
unfolding parse_host_ports
parse_host_ports-IsSorted ports protos ps e =
    let (out, same, v, d) =
      sorted_result-cases (parse_rows ports protos []) ps
        (parse_rows-IsFine ports protos [] (tt, tt)) e in
    rw same (sort-All IsHostPort out v, sort-IsSorted out, sort-IsDistinct out d)

-- The ports that ParseHostPorts returns are the ports that DecodeHostPorts reads from the string that
-- FormatHostPorts stores for them.
pub decode-format-parse :
    (ports protos : List Text) (ps : List HostPort)
    → parse_host_ports ports protos ≡ parsed ps
    → decode_host_ports (format_host_ports ps) ≡ ps
decode-format-parse ports protos ps e =
    let (valid, sorted, distinct) = parse_host_ports-IsSorted ports protos ps e in
    decode-format ps valid sorted
