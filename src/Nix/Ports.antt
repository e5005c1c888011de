-- ===== src/Nix/Ports.antt =====
-- internal/nix/ports.go: the host ports of a workload, from the form's rows to the stored string and
-- back. A text is the list of its code points.
pub mod Order
pub mod Numbers
pub mod Fields
pub mod RoundTrip
use nixbox.Prelude.{
  Bool, List, Option, Text, [], codes, false, if◌then◌else◌, leb, ltb, none, not, some, suc,
  text_eq, true, zero, ℕ, ◌%◌, ◌&&◌, ◌*◌, ◌++◌, ◌+◌, ◌-◌, ◌/◌, ◌==◌, ◌||◌, ◌∷◌,
}

pub record HostPort : Type 0 where
  pub port : ℕ
  pub proto : Text

pub data Parsed : Type 0 where
  parsed : List HostPort → Parsed
  invalid_port invalid_protocol : Text → Parsed

-- unicode.IsSpace, which TrimSpace and Fields go by.
unfoldable pub is_space : ℕ → Bool
is_space c =
    (leb 9 c && leb c 13)
    || c == 0x20
    || c == 0x85
    || c == 0xa0
    || c == 0x1680
    || (leb 0x2000 c && leb c 0x200a)
    || c == 0x2028
    || c == 0x2029
    || c == 0x202f
    || c == 0x205f
    || c == 0x3000

unfoldable pub trim_left : Text → Text
unfolding is_space
trim_left [] = []
trim_left (c ∷ s) = let rest = trim_left s in if is_space c then rest else c ∷ s

unfoldable pub trim_right : Text → Text
unfolding is_space
trim_right [] = []
trim_right (c ∷ s) =
    let rest = trim_right s in if is_space c && text_eq rest [] then [] else c ∷ rest

unfoldable pub trim_space : Text → Text
unfolding trim_left trim_right
trim_space s = trim_right (trim_left s)

unfoldable pub is_digit : ℕ → Bool
is_digit c = leb b'0' c && leb c b'9'

-- The digits of Atoi, after a value of earlier ones.
unfoldable pub digits_value : ℕ → Text → Option ℕ
unfolding is_digit
digits_value n [] = some n
digits_value n (c ∷ s) =
    let rest = digits_value (n * 10 + (c - b'0')) s in if is_digit c then rest else none

abbrev pub in_range : Option ℕ → Option ℕ
in_range none = none
in_range (some n) = if leb 1 n && leb n 65535 then some n else none

abbrev pub some_digits : Text → Option ℕ
some_digits [] = none
some_digits (c ∷ s) = digits_value 0 (c ∷ s)

-- Atoi, with an optional sign, and the bounds 1 and 65535 behind it. A number below 0 or beyond the
-- machine's integers is out of these bounds.
unfoldable pub port_number : Text → Option ℕ
unfolding digits_value
port_number [] = none
port_number (c ∷ s) =
    if c == b'-'
    then none
    else if c == b'+'
    then in_range (some_digits s)
    else in_range (digits_value 0 (c ∷ s))

abbrev pub is_proto : Text → Bool
is_proto p = text_eq p (codes "tcp") || text_eq p (codes "udp")

-- One row of the editor: skipped, refused or a port.
pub data Row : Type 0 where
  blank : Row
  bad_port bad_protocol : Text → Row
  declared : HostPort → Row

abbrev pub proto_of : List Text → Text
proto_of [] = codes "tcp"
proto_of (p ∷ ps) = if text_eq (trim_space p) [] then codes "tcp" else trim_space p

unfoldable pub row : Text → List Text → Row
unfolding port_number trim_space
row ps protos =
    let port = trim_space ps in
    if text_eq port [] then blank else elim (port_number port) [
      | none ↦ bad_port port
      | some n ↦
          if is_proto (proto_of protos)
          then declared (record { port = n; proto = proto_of protos })
          else bad_protocol (proto_of protos)
    ]

abbrev pub same_port : HostPort → HostPort → Bool
same_port p q = p.port == q.port && text_eq p.proto q.proto

-- seen[hp], for what is in `out`
unfoldable pub seen : HostPort → List HostPort → Bool
seen p [] = false
seen p (q ∷ qs) = same_port p q || seen p qs

-- The order of strings in Go.
unfoldable pub text_lt : Text → Text → Bool
text_lt [] [] = false
text_lt [] (d ∷ t) = true
text_lt (c ∷ s) [] = false
text_lt (c ∷ s) (d ∷ t) = ltb c d || (c == d && text_lt s t)

unfoldable pub less : HostPort → HostPort → Bool
unfolding text_lt
less p q = if not (text_eq p.proto q.proto) then text_lt p.proto q.proto else ltb p.port q.port

-- sortHostPorts; ports that the order does not tell apart are the same.
unfoldable pub insert : HostPort → List HostPort → List HostPort
unfolding less
insert p [] = p ∷ []
insert p (q ∷ qs) = let rest = insert p qs in if less q p then q ∷ rest else p ∷ q ∷ qs

unfoldable pub sort_host_ports : List HostPort → List HostPort
unfolding insert
sort_host_ports [] = []
sort_host_ports (p ∷ ps) = insert p (sort_host_ports ps)

abbrev pub rest_of : List Text → List Text
rest_of [] = []
rest_of (p ∷ ps) = ps

abbrev pub unless_seen : HostPort → List HostPort → List HostPort
unless_seen p out = if seen p out then out else out ++ p ∷ []

-- The loop of ParseHostPorts.
unfoldable pub parse_rows : List Text → List Text → List HostPort → Parsed
unfolding row seen
parse_rows [] protos out = parsed out
parse_rows (p ∷ ps) protos out = elim (row p protos) [
  | blank ↦ parse_rows ps (rest_of protos) out
  | bad_port t ↦ invalid_port t
  | bad_protocol t ↦ invalid_protocol t
  | declared hp ↦ parse_rows ps (rest_of protos) (unless_seen hp out)
]

abbrev pub sorted_result : Parsed → Parsed
sorted_result (parsed out) = parsed (sort_host_ports out)
sorted_result (invalid_port t) = invalid_port t
sorted_result (invalid_protocol t) = invalid_protocol t

unfoldable pub parse_host_ports : List Text → List Text → Parsed
unfolding parse_rows sort_host_ports
parse_host_ports ports protos = sorted_result (parse_rows ports protos [])

-- %d
unfoldable pub digits : (fuel : ℕ) → ℕ → Text → Text
digits zero n s = s
digits (suc fuel) n s =
    let last = b'0' + n % 10 in
    let more = digits fuel (n / 10) (last ∷ s) in if ltb n 10 then last ∷ s else more

unfoldable pub decimal : ℕ → Text
unfolding digits
decimal n = digits (suc n) n []

unfoldable pub format_port : HostPort → Text
unfolding decimal
format_port p = decimal p.port ++ b'/' ∷ p.proto

unfoldable pub format_host_ports : List HostPort → Text
unfolding format_port
format_host_ports [] = []
format_host_ports (p ∷ []) = format_port p
format_host_ports (p ∷ q ∷ ps) = format_port p ++ b' ' ∷ format_host_ports (q ∷ ps)

-- strings.Fields
abbrev pub goes_on : Text → Bool
goes_on [] = false
goes_on (c ∷ s) = not (is_space c)

abbrev pub onto_word : ℕ → List Text → List Text
onto_word c [] = (c ∷ []) ∷ []
onto_word c (w ∷ ws) = (c ∷ w) ∷ ws

unfoldable pub fields : Text → List Text
unfolding is_space
fields [] = []
fields (c ∷ s) =
    let rest = fields s in
    if is_space c then rest else if goes_on s then onto_word c rest else (c ∷ []) ∷ rest

-- strings.Cut at "/"
abbrev pub keep_before : ℕ → Option (Text × Text) → Option (Text × Text)
keep_before c none = none
keep_before c (some (w, s)) = some (c ∷ w, s)

unfoldable pub cut_slash : Text → Option (Text × Text)
cut_slash [] = none
cut_slash (c ∷ s) = let rest = cut_slash s in if c == b'/' then some ([], s) else keep_before c rest

-- A token of the stored string; a malformed one is skipped.
unfoldable pub decode_token : Text → Option HostPort
unfolding cut_slash port_number
decode_token tok = elim (cut_slash tok) [
  | none ↦ none
  | some (port_str, proto) ↦ elim (port_number port_str) [
    | none ↦ none
    | some n ↦ if is_proto proto then some (record { port = n; proto = proto }) else none
  ]
]

abbrev pub and_then : Option HostPort → List HostPort → List HostPort
and_then none ps = ps
and_then (some p) ps = p ∷ ps

unfoldable pub decode_tokens : List Text → List HostPort
unfolding decode_token
decode_tokens [] = []
decode_tokens (t ∷ ts) = and_then (decode_token t) (decode_tokens ts)

unfoldable pub decode_host_ports : Text → List HostPort
unfolding decode_tokens fields sort_host_ports
decode_host_ports s = sort_host_ports (decode_tokens (fields s))
