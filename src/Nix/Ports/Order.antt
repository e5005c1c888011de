-- ===== src/Nix/Ports/Order.antt =====
-- The order that sortHostPorts of internal/nix/ports.go sorts by, and the sorted list.
use nixbox.Prelude.{
  All, Bool-cases, List, Text, [], arith, false, inl, inr, refl, sym, text_eq, text_eq_iff,
  text_eq_sound, true, ◌∙◌, ◌∷◌, ◌≡◌,
}
use nixbox.Nix.Ports.{HostPort, same_port, text_lt, less, insert, sort_host_ports}

text_lt_asym : (s t : Text) → text_lt s t ≡ true → text_lt t s ≡ false
unfolding text_lt
text_lt_asym [] [] h = refl
text_lt_asym [] (d ∷ t) h = refl
text_lt_asym (c ∷ s) [] h = cc
text_lt_asym (c ∷ s) (d ∷ t) h = ground (arith, text_lt_asym s t)

text_lt_antisym : (s t : Text) → text_lt s t ≡ false → text_lt t s ≡ false → s ≡ t
unfolding text_lt
text_lt_antisym [] [] h k = refl
text_lt_antisym [] (d ∷ t) h k = ground arith
text_lt_antisym (c ∷ s) [] h k = ground arith
text_lt_antisym (c ∷ s) (d ∷ t) h k = ground (arith, text_lt_antisym s t)

-- Not below, and not below again, is not below.
text_lt_trans : (s t u : Text) → text_lt s t ≡ false → text_lt t u ≡ false → text_lt s u ≡ false
unfolding text_lt
text_lt_trans [] t [] h k = refl
text_lt_trans (c ∷ s) t [] h k = refl
text_lt_trans [] [] (e ∷ u) h k = k
text_lt_trans [] (d ∷ t) (e ∷ u) h k = absurd (ground arith)
text_lt_trans (c ∷ s) [] (e ∷ u) h k = ground arith
text_lt_trans (c ∷ s) (d ∷ t) (e ∷ u) h k = ground (arith, text_lt_trans s t u)

text_lt_irrefl : (s : Text) → text_lt s s ≡ false
unfolding text_lt
text_lt_irrefl [] = refl
text_lt_irrefl (c ∷ s) = ground (arith, text_lt_irrefl s)

text_eq_sym : (s t : Text) → text_eq s t ≡ text_eq t s
text_eq_sym [] [] = refl
text_eq_sym [] (d ∷ t) = refl
text_eq_sym (c ∷ s) [] = refl
text_eq_sym (c ∷ s) (d ∷ t) = ground (arith, text_eq_sym s t)

less_asym : (p q : HostPort) → less p q ≡ true → less q p ≡ false
unfolding less
less_asym p q h = ground (arith, text_eq_sym p.proto q.proto, text_lt_asym p.proto q.proto)

text_lt-less : (p q : HostPort) → less p q ≡ false → text_lt p.proto q.proto ≡ false
unfolding less
text_lt-less p q h = elim (Bool-cases (text_eq p.proto q.proto)) [
  | inl t ↦ rw (text_eq_sound p.proto q.proto t) (text_lt_irrefl q.proto)
  | inr f ↦ rw f at h
]

less_trans : (p q r : HostPort) → less p q ≡ false → less q r ≡ false → less p r ≡ false
unfolding less
less_trans p q r h k =
    let a = text_lt-less p q h in
    let b = text_lt-less q r k in
    elim (Bool-cases (text_eq p.proto r.proto)) [
      | inr f ↦ rw f (text_lt_trans p.proto q.proto r.proto a b)
      | inl t ↦
          let pr = text_eq_sound p.proto r.proto t in
          let back : text_lt q.proto p.proto ≡ false = rw pr b in
          let pq = text_lt_antisym p.proto q.proto a back in
          let one : text_eq p.proto q.proto ≡ true = (text_eq_iff p.proto q.proto).1 pq in
          let two : text_eq q.proto r.proto ≡ true =
            (text_eq_iff q.proto r.proto).1 (sym pq ∙ pr) in
          ground arith
    ]

-- No port is below an earlier one.
abbrev pub IsSorted : List HostPort → Type 0
IsSorted [] = Unit
IsSorted (p ∷ ps) = All (λ (q : HostPort). less q p ≡ false) ps × IsSorted ps

-- No port stands twice.
abbrev pub IsDistinct : List HostPort → Type 0
IsDistinct [] = Unit
IsDistinct (p ∷ ps) = All (λ (q : HostPort). same_port p q ≡ false) ps × IsDistinct ps

module _ {κ} (P : HostPort → Type κ) where
  insert-All : (p : HostPort) (ps : List HostPort) → P p → All P ps → All P (insert p ps)
  unfolding insert
  insert-All p [] h hs = (h, tt)
  insert-All p (q ∷ qs) h (k, ks) = elim (Bool-cases (less q p)) [
    | inl t ↦ rw t (k, insert-All p qs h ks)
    | inr f ↦ rw f (h, (k, ks))
  ]

  pub sort-All : (ps : List HostPort) → All P ps → All P (sort_host_ports ps)
  unfolding sort_host_ports
  sort-All [] h = tt
  sort-All (p ∷ ps) (h, hs) = insert-All p (sort_host_ports ps) h (sort-All ps hs)

below-all :
    (p q : HostPort) (qs : List HostPort)
    → less q p ≡ false
    → All (λ (r : HostPort). less r q ≡ false) qs
    → All (λ (r : HostPort). less r p ≡ false) qs
below-all p q [] h ks = tt
below-all p q (r ∷ qs) h (k, ks) = (less_trans r q p k h, below-all p q qs h ks)

insert-IsSorted : (p : HostPort) (ps : List HostPort) → IsSorted ps → IsSorted (insert p ps)
unfolding insert
insert-IsSorted p [] h = (tt, tt)
insert-IsSorted p (q ∷ qs) (k, ks) = elim (Bool-cases (less q p)) [
  | inl t ↦ rw t (
    insert-All (λ (r : HostPort). less r q ≡ false) p qs (less_asym q p t) k,
    insert-IsSorted p qs ks,
  )
  | inr f ↦ rw f ((f, below-all p q qs f k), (k, ks))
]

pub sort-IsSorted : (ps : List HostPort) → IsSorted (sort_host_ports ps)
unfolding sort_host_ports
sort-IsSorted [] = tt
sort-IsSorted (p ∷ ps) = insert-IsSorted p (sort_host_ports ps) (sort-IsSorted ps)

insert_below :
    (p : HostPort) (qs : List HostPort)
    → All (λ (q : HostPort). less q p ≡ false) qs
    → insert p qs ≡ p ∷ qs
unfolding insert
insert_below p [] h = refl
insert_below p (q ∷ qs) (h, hs) = rw h refl

pub sort_of_IsSorted : (ps : List HostPort) → IsSorted ps → sort_host_ports ps ≡ ps
unfolding sort_host_ports
sort_of_IsSorted [] h = refl
sort_of_IsSorted (p ∷ ps) (h, hs) = rw (sort_of_IsSorted ps hs) (insert_below p ps h)

pub same_port_sym : (p q : HostPort) → same_port p q ≡ false → same_port q p ≡ false
same_port_sym p q h = ground (arith, text_eq_sym p.proto q.proto)

insert-IsDistinct :
    (p : HostPort) (ps : List HostPort)
    → All (λ (q : HostPort). same_port p q ≡ false) ps
    → IsDistinct ps
    → IsDistinct (insert p ps)
unfolding insert
insert-IsDistinct p [] h d = (tt, tt)
insert-IsDistinct p (q ∷ qs) (h, hs) (k, ks) = elim (Bool-cases (less q p)) [
  | inl t ↦ rw t (
    insert-All (λ (r : HostPort). same_port q r ≡ false) p qs (same_port_sym p q h) k,
    insert-IsDistinct p qs hs ks,
  )
  | inr f ↦ rw f ((h, hs), (k, ks))
]

pub sort-IsDistinct : (ps : List HostPort) → IsDistinct ps → IsDistinct (sort_host_ports ps)
unfolding sort_host_ports
sort-IsDistinct [] h = tt
sort-IsDistinct (p ∷ ps) (h, hs) =
    insert-IsDistinct p (sort_host_ports ps)
      (sort-All (λ (q : HostPort). same_port p q ≡ false) ps h) (sort-IsDistinct ps hs)
