-- ===== src/Web/PortRows/Saving.antt =====
-- The rows of web/src/workload-form.ts and what internal/nix/ports.go makes of them on a save.
use nixbox.Prelude.{
  All, List, Text, [], ap, append-nil, append_assoc, arith, codes, false, map, refl, some, suc, sym,
  text_eq, true, zero, ℕ, ◌++◌, ◌∙◌, ◌∷◌, ◌≡◌, ◌≢◌,
}
use mathlib.Core.Path.{subst}
use nixbox.Nix.Ports.{
  less, sorted_result, HostPort, Parsed, parsed, decimal, is_proto, is_space, trim_left, trim_right,
  trim_space, port_number, declared, row, proto_of, same_port, seen, unless_seen, rest_of,
  parse_rows, parse_host_ports,
}
use nixbox.Nix.Ports.Numbers.{decimal-IsDigit, decimal_nonempty, port_number-decimal}
use nixbox.Nix.Ports.Order.{IsSorted, IsDistinct, same_port_sym, sort_of_IsSorted}
use nixbox.Nix.Ports.Fields.{IsHostPort, IsInk, digits-IsInk, proto-IsInk}
use nixbox.Web.PortRows.{PortRow, row_of, empty_row, remove_at, add_row, delete_row}

-- The parallel arrays that the form submits.
abbrev pub ports_of : List PortRow → List Text
ports_of = map (λ (r : PortRow). r.port)

abbrev pub protos_of : List PortRow → List Text
protos_of = map (λ (r : PortRow). r.proto)

trim_left_of_ink : (c : ℕ) (s : Text) → is_space c ≡ false → trim_left (c ∷ s) ≡ c ∷ s
unfolding trim_left
trim_left_of_ink c s h = rw h refl

trim_right_of_ink : (s : Text) → All IsInk s → trim_right s ≡ s
unfolding trim_right
trim_right_of_ink [] h = refl
trim_right_of_ink (c ∷ s) (h, hs) = rw h (ap (◌∷◌ c) (trim_right_of_ink s hs))

-- A text without white space is not trimmed.
trim_space_of_ink : (s : Text) → All IsInk s → trim_space s ≡ s
unfolding trim_space
trim_space_of_ink [] h = refl
trim_space_of_ink (c ∷ s) (h, hs) =
    ap trim_right (trim_left_of_ink c s h) ∙ trim_right_of_ink (c ∷ s) (h, hs)

nonempty : (s : Text) → s ≢ [] → text_eq s [] ≡ false
nonempty [] ne = absurd (ne refl)
nonempty (c ∷ s) ne = refl

proto_nonempty : (p : Text) → is_proto p ≡ true → p ≢ []
proto_nonempty [] h e = cc
proto_nonempty (c ∷ p) h e = cc

proto_of-proto : (p : Text) (rest : List Text) → is_proto p ≡ true → proto_of (p ∷ rest) ≡ p
proto_of-proto p rest known =
    let same = trim_space_of_ink p (proto-IsInk p known) in
    rw same (rw (nonempty p (proto_nonempty p known)) refl)

row-declared :
    (s : Text) (protos : List Text) (n : ℕ)
    → trim_space s ≡ s
    → s ≢ []
    → port_number s ≡ some n
    → is_proto (proto_of protos) ≡ true
    → row s protos ≡ declared (record { port = n; proto = proto_of protos })
unfolding row
row-declared s protos n trimmed ne number known =
    let given : text_eq (trim_space s) [] ≡ false =
      ap (λ t. text_eq t []) trimmed ∙ nonempty s ne in
    let read : port_number (trim_space s) ≡ some n = ap port_number trimmed ∙ number in
    rw given (rw (read, row) (rw known refl))

row-decimal :
    (p : HostPort) (rest : List Text)
    → IsHostPort p
    → row (decimal p.port) (p.proto ∷ rest) ≡ declared p
row-decimal p rest v =
    row-declared (decimal p.port) (p.proto ∷ rest) p.port
      (trim_space_of_ink (decimal p.port) (digits-IsInk (decimal p.port) (decimal-IsDigit p.port)))
      (decimal_nonempty p.port) (port_number-decimal p.port v.low v.high)
      (rw (proto_of-proto p.proto rest v.known) v.known)
    ∙ ap (λ q. declared (record { port = p.port; proto = q })) (proto_of-proto p.proto rest v.known)

distinct-seen :
    (out : List HostPort) (p : HostPort) (ps : List HostPort)
    → IsDistinct (out ++ p ∷ ps)
    → seen p out ≡ false
unfolding seen
distinct-seen [] p ps d = refl
distinct-seen (q ∷ out) p ps (h, hs) =
    let other = same_port_sym q p (middle out h) in
    let rest = distinct-seen out p ps hs in ground arith
  where
    middle :
        (xs : List HostPort)
        → All (λ (r : HostPort). same_port q r ≡ false) (xs ++ p ∷ ps)
        → same_port q p ≡ false
    middle [] h = h.0
    middle (x ∷ xs) h = middle xs h.1

parse_rows_step :
    (s : Text) (ports protos : List Text) (out : List HostPort) (p : HostPort)
    → row s protos ≡ declared p
    → parse_rows (s ∷ ports) protos out ≡ parse_rows ports (rest_of protos) (unless_seen p out)
unfolding parse_rows
parse_rows_step s ports protos out p e = rw (e, parse_rows) refl

-- Rows of ports that are valid and different add these ports, whatever rows follow.
parse_rows-declared :
    (ps : List HostPort) (more : List PortRow) (out : List HostPort)
    → All IsHostPort ps
    → IsDistinct (out ++ ps)
    → parse_rows (ports_of (map row_of ps ++ more)) (protos_of (map row_of ps ++ more)) out
      ≡ parse_rows (ports_of more) (protos_of more) (out ++ ps)
parse_rows-declared [] more out v d =
    ap (parse_rows (ports_of more) (protos_of more)) (sym (append-nil out))
parse_rows-declared (p ∷ ps) more out (v, vs) d =
    let rows = map row_of ps ++ more in
    let regroup : (out ++ p ∷ []) ++ ps ≡ out ++ p ∷ ps = append_assoc out (p ∷ []) ps in
    let new : unless_seen p out ≡ out ++ p ∷ [] = rw (distinct-seen out p ps d) refl in
    parse_rows_step (decimal p.port) (ports_of rows) (p.proto ∷ protos_of rows) out p
      (row-decimal p (protos_of rows) v)
    ∙ (ap (parse_rows (ports_of rows) (protos_of rows)) new
        ∙ (parse_rows-declared ps more (out ++ p ∷ []) vs (subst IsDistinct (sym regroup) d)
            ∙ ap (parse_rows (ports_of more) (protos_of more)) regroup))

-- What ParseHostPorts returns: valid ports in order, none twice.
abbrev pub IsCanonical : List HostPort → Type 0
IsCanonical ps = All IsHostPort ps × IsSorted ps × IsDistinct ps

-- What a save makes of the rows.
abbrev pub saved_ports : List PortRow → Parsed
saved_ports rows = parse_host_ports (ports_of rows) (protos_of rows)

saved_ports-declared :
    (ps : List HostPort) (more : List PortRow)
    → IsCanonical ps
    → parse_rows (ports_of more) (protos_of more) ps ≡ parsed ps
    → saved_ports (map row_of ps ++ more) ≡ parsed ps
unfolding parse_host_ports
saved_ports-declared ps more (vs, sorted, distinct) e =
    ap sorted_result (parse_rows-declared ps more [] vs distinct ∙ e)
    ∙ ap parsed (sort_of_IsSorted ps sorted)

blank_row : (ps : List HostPort) → parse_rows ([] ∷ []) (codes "tcp" ∷ []) ps ≡ parsed ps
unfolding parse_rows
blank_row ps = refl

module _ {κ} (P : HostPort → Type κ) where
  All-remove_at : (i : ℕ) (ps : List HostPort) → All P ps → All P (remove_at i ps)
  All-remove_at i [] h = tt
  All-remove_at zero (p ∷ ps) (h, hs) = hs
  All-remove_at (suc i) (p ∷ ps) (h, hs) = (h, All-remove_at i ps hs)

IsSorted-remove_at : (i : ℕ) (ps : List HostPort) → IsSorted ps → IsSorted (remove_at i ps)
IsSorted-remove_at i [] h = tt
IsSorted-remove_at zero (p ∷ ps) (h, hs) = hs
IsSorted-remove_at (suc i) (p ∷ ps) (h, hs) =
    (All-remove_at (λ (q : HostPort). less q p ≡ false) i ps h, IsSorted-remove_at i ps hs)

IsDistinct-remove_at : (i : ℕ) (ps : List HostPort) → IsDistinct ps → IsDistinct (remove_at i ps)
IsDistinct-remove_at i [] h = tt
IsDistinct-remove_at zero (p ∷ ps) (h, hs) = hs
IsDistinct-remove_at (suc i) (p ∷ ps) (h, hs) =
    (All-remove_at (λ (q : HostPort). same_port p q ≡ false) i ps h, IsDistinct-remove_at i ps hs)

map-remove_at :
    (i : ℕ) (ps : List HostPort) → remove_at i (map row_of ps) ≡ map row_of (remove_at i ps)
map-remove_at i [] = refl
map-remove_at zero (p ∷ ps) = refl
map-remove_at (suc i) (p ∷ ps) = ap (◌∷◌ (row_of p)) (map-remove_at i ps)

saved_ports-rows : (ps : List HostPort) → IsCanonical ps → saved_ports (map row_of ps) ≡ parsed ps
unfolding parse_rows
saved_ports-rows ps c =
    ap saved_ports (sym (append-nil (map row_of ps))) ∙ saved_ports-declared ps [] c refl

-- The rows of the form for ports that were saved before: a save without a change gives the same ports, a
-- row that was added and left empty changes nothing, and a save after deleting a row gives the ports
-- without the one of that row.
pub saved_ports-edited :
    (ps : List HostPort) (i : ℕ)
    → IsCanonical ps
    → (saved_ports (map row_of ps) ≡ parsed ps)
      × (saved_ports (add_row (map row_of ps)) ≡ parsed ps)
      × (saved_ports (delete_row i (map row_of ps)) ≡ parsed (remove_at i ps))
unfolding add_row delete_row
saved_ports-edited ps i (v, s, d) = (
  saved_ports-rows ps (v, s, d),
  saved_ports-declared ps (empty_row ∷ []) (v, s, d) (blank_row ps),
  ap saved_ports (map-remove_at i ps)
      ∙ saved_ports-rows (remove_at i ps)
          (All-remove_at IsHostPort i ps v, IsSorted-remove_at i ps s, IsDistinct-remove_at i ps d),
)
