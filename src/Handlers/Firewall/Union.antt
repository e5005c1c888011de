-- ===== src/Handlers/Firewall/Union.antt =====
-- Which host ports the index of internal/nix/stateflake.go opens.
use nixbox.Prelude.{
  All, Bool, Bool-cases, List, [], ap, arith, codes, false, if◌then◌else◌, imp-All, inl, inr, ltb,
  not, refl, text_eq, true, ℕ, ◌&&◌, ◌++◌, ◌<◌, ◌==◌, ◌||◌, ◌∙◌, ◌∷◌, ◌≡◌,
}
use nixbox.Nix.Ports.{HostPort}
use nixbox.Handlers.Requests.{WorkloadType, lookup_type}
use nixbox.Handlers.Index.{IndexEntry}
use nixbox.Handlers.Firewall.{
  has, add_seen, add_ports, is_known, insert_int, sort_ints, add_entries, host_ports,
}

-- Whether ports, and entries of known types, ask for a port of a protocol.
abbrev pub is_udp : HostPort → Bool
is_udp p = text_eq p.proto (codes "udp")

abbrev pub listed : Bool → ℕ → List HostPort → Bool
listed udp n [] = false
listed udp n (p ∷ ps) =
    (p.port == n && (if udp then is_udp p else not (is_udp p))) || listed udp n ps

abbrev pub asked : List WorkloadType → Bool → ℕ → List IndexEntry → Bool
asked types udp n [] = false
asked types udp n (e ∷ es) =
    (is_known (lookup_type e.typ types) && listed udp n e.ports) || asked types udp n es

abbrev pub IsAscending : List ℕ → Type 0
IsAscending [] = Unit
IsAscending (p ∷ ps) = All (λ q. p < q) ps × IsAscending ps

abbrev Once : List ℕ → Type 0
Once [] = Unit
Once (p ∷ ps) = (has p ps ≡ false) × Once ps

has-append : (n : ℕ) (xs ys : List ℕ) → has n (xs ++ ys) ≡ (has n xs || has n ys)
has-append n [] ys = refl
has-append n (x ∷ xs) ys = ground (arith, has-append n xs ys)

has-add_seen : (n p : ℕ) (out : List ℕ) → has n (add_seen p out) ≡ ((p == n) || has n out)
unfolding add_seen
has-add_seen n p out =
    let split = has-append n out (p ∷ []) in
    elim (Bool-cases (has p out)) [
      | inl t ↦ elim (Bool-cases (p == n)) [
        | inl e ↦ let same : p ≡ n = ground arith in rw (t, e) (rw same at t)
        | inr f ↦ rw (t, f) refl
      ]
      | inr f ↦ rw f (ground arith)
    ]

Once-append : (p : ℕ) (out : List ℕ) → has p out ≡ false → Once out → Once (out ++ p ∷ [])
Once-append p [] h o = (refl, tt)
Once-append p (q ∷ qs) h (fresh, o) =
    let split = has-append q qs (p ∷ []) in (ground arith, Once-append p qs (ground arith) o)

Once-add_seen : (p : ℕ) (out : List ℕ) → Once out → Once (add_seen p out)
unfolding add_seen
Once-add_seen p out o = elim (Bool-cases (has p out)) [
  | inl t ↦ rw t o
  | inr f ↦ rw f (Once-append p out f o)
]

has-insert_int : (n p : ℕ) (qs : List ℕ) → has n (insert_int p qs) ≡ ((p == n) || has n qs)
has-insert_int n p [] = refl
has-insert_int n p (q ∷ qs) = ground (arith, has-insert_int n p qs)

has-sort_ints : (n : ℕ) (ps : List ℕ) → has n (sort_ints ps) ≡ has n ps
unfolding sort_ints
has-sort_ints n [] = refl
has-sort_ints n (p ∷ ps) =
    has-insert_int n p (sort_ints ps) ∙ ap (λ b. (p == n) || b) (has-sort_ints n ps)

insert_int-All :
    (q p : ℕ) (qs : List ℕ) → q < p → All (λ r. q < r) qs → All (λ r. q < r) (insert_int p qs)
insert_int-All q p [] lt h = (lt, tt)
insert_int-All q p (r ∷ rs) lt (h, hs) = elim (Bool-cases (ltb r p)) [
  | inl t ↦ rw t (h, insert_int-All q p rs lt hs)
  | inr f ↦ rw f (lt, (h, hs))
]

insert_int-IsAscending :
    (p : ℕ) (qs : List ℕ) → has p qs ≡ false → IsAscending qs → IsAscending (insert_int p qs)
insert_int-IsAscending p [] h a = (tt, tt)
insert_int-IsAscending p (q ∷ qs) h (below, a) =
    let rest : has p qs ≡ false = ground arith in
    elim (Bool-cases (ltb q p)) [
      | inl t ↦
          rw t (insert_int-All q p qs (ground arith) below, insert_int-IsAscending p qs rest a)
      | inr f ↦
          let lt : p < q = ground arith in
          rw f ((lt, imp-All (λ r. q < r) (λ r. p < r) qs (λ r h. omega arith) below), (below, a))
    ]

sort_ints-IsAscending : (ps : List ℕ) → Once ps → IsAscending (sort_ints ps)
unfolding sort_ints
sort_ints-IsAscending [] o = tt
sort_ints-IsAscending (p ∷ ps) (fresh, o) =
    insert_int-IsAscending p (sort_ints ps) (has-sort_ints p ps ∙ fresh)
      (sort_ints-IsAscending ps o)

-- What the ports of one entry add.
add_ports-has :
    (n : ℕ) (ps : List HostPort) (tcp udp : List ℕ)
    → let out = add_ports ps tcp udp in
      (has n out.0 ≡ (has n tcp || listed false n ps))
      × (has n out.1 ≡ (has n udp || listed true n ps))
unfolding add_ports
add_ports-has n [] tcp udp = (ground arith, ground arith)
add_ports-has n (p ∷ ps) tcp udp = elim (Bool-cases (is_udp p)) [
  | inl t ↦
      let (in_tcp, in_udp) = add_ports-has n ps tcp (add_seen p.port udp) in
      let new = has-add_seen n p.port udp in rw t (ground arith, ground arith)
  | inr f ↦
      let (in_tcp, in_udp) = add_ports-has n ps (add_seen p.port tcp) udp in
      let new = has-add_seen n p.port tcp in rw f (ground arith, ground arith)
]

add_ports-Once :
    (ps : List HostPort) (tcp udp : List ℕ)
    → Once tcp
    → Once udp
    → Once (add_ports ps tcp udp).0 × Once (add_ports ps tcp udp).1
unfolding add_ports
add_ports-Once [] tcp udp t u = (t, u)
add_ports-Once (p ∷ ps) tcp udp t u = elim (Bool-cases (is_udp p)) [
  | inl y ↦ rw y (add_ports-Once ps tcp (add_seen p.port udp) t (Once-add_seen p.port udp u))
  | inr n ↦ rw n (add_ports-Once ps (add_seen p.port tcp) udp (Once-add_seen p.port tcp t) u)
]

module _ (types : List WorkloadType) where
  add_entries-has :
      (n : ℕ) (es : List IndexEntry) (tcp udp : List ℕ)
      → let out = add_entries types es tcp udp in
        (has n out.0 ≡ (has n tcp || asked types false n es))
        × (has n out.1 ≡ (has n udp || asked types true n es))
  unfolding add_entries
  add_entries-has n [] tcp udp = (ground arith, ground arith)
  add_entries-has n (e ∷ es) tcp udp =
      let (one_tcp, one_udp) = add_ports-has n e.ports tcp udp in
      let out = add_ports e.ports tcp udp in
      elim (Bool-cases (is_known (lookup_type e.typ types))) [
        | inl t ↦
            let (all_tcp, all_udp) = add_entries-has n es out.0 out.1 in
            rw t (ground arith, ground arith)
        | inr f ↦ let (all_tcp, all_udp) = add_entries-has n es tcp udp in rw f (all_tcp, all_udp)
      ]

  add_entries-Once :
      (es : List IndexEntry) (tcp udp : List ℕ)
      → Once tcp
      → Once udp
      → Once (add_entries types es tcp udp).0 × Once (add_entries types es tcp udp).1
  unfolding add_entries
  add_entries-Once [] tcp udp t u = (t, u)
  add_entries-Once (e ∷ es) tcp udp t u =
      let (t', u') = add_ports-Once e.ports tcp udp t u in
      let out = add_ports e.ports tcp udp in
      elim (Bool-cases (is_known (lookup_type e.typ types))) [
        | inl y ↦ rw y (add_entries-Once es out.0 out.1 t' u')
        | inr n ↦ rw n (add_entries-Once es tcp udp t u)
      ]

  -- The lists of tcp and udp ports in the index are strictly ascending, and hold exactly the ports that
  -- an entry of a registered type asks for with that protocol, where any protocol but udp counts as tcp.
  pub host_ports-asked :
      (es : List IndexEntry) (n : ℕ)
      → let (tcp, udp) = host_ports types es in
        (has n tcp ≡ asked types false n es)
        × (has n udp ≡ asked types true n es)
        × IsAscending tcp
        × IsAscending udp
  unfolding host_ports
  host_ports-asked es n =
      let (tcp, udp) = add_entries types es [] [] in
      let (in_tcp, in_udp) = add_entries-has n es [] [] in
      let (once_tcp, once_udp) = add_entries-Once es [] [] tt tt in
      (
        has-sort_ints n tcp ∙ in_tcp,
        has-sort_ints n udp ∙ in_udp,
        sort_ints-IsAscending tcp once_tcp,
        sort_ints-IsAscending udp once_udp,
      )
