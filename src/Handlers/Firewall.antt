-- ===== src/Handlers/Firewall.antt =====
-- The host ports of the index, in WriteIndex of internal/nix/stateflake.go, over the entries of
-- regenerateIndex.
pub mod Opened
pub mod Union
use nixbox.Prelude.{
  Bool, List, Option, [], codes, false, if◌then◌else◌, ltb, none, some, text_eq, true, ℕ, ◌++◌,
  ◌==◌, ◌||◌, ◌∷◌,
}
use nixbox.Nix.Ports.{HostPort}
use nixbox.Handlers.Requests.{WorkloadType, lookup_type}
use nixbox.Handlers.Index.{IndexEntry}

-- tcpSeen, udpSeen
abbrev pub has : ℕ → List ℕ → Bool
has p [] = false
has p (q ∷ qs) = q == p || has p qs

unfoldable pub add_seen : ℕ → List ℕ → List ℕ
add_seen p out = if has p out then out else out ++ p ∷ []

-- The ports of one entry, added to the lists of tcp and of udp.
unfoldable pub add_ports : List HostPort → List ℕ → List ℕ → List ℕ × List ℕ
unfolding add_seen
add_ports [] tcp udp = (tcp, udp)
add_ports (p ∷ ps) tcp udp =
    if text_eq p.proto (codes "udp")
    then add_ports ps tcp (add_seen p.port udp)
    else add_ports ps (add_seen p.port tcp) udp

abbrev pub is_known : Option WorkloadType → Bool
is_known none = false
is_known (some t) = true

-- sort.Ints
abbrev pub insert_int : ℕ → List ℕ → List ℕ
insert_int p [] = p ∷ []
insert_int p (q ∷ qs) = let rest = insert_int p qs in if ltb q p then q ∷ rest else p ∷ q ∷ qs

unfoldable pub sort_ints : List ℕ → List ℕ
sort_ints [] = []
sort_ints (p ∷ ps) = insert_int p (sort_ints ps)

module _ (types : List WorkloadType) where
  -- The loop over the entries; those of a type that is not registered are passed over.
  unfoldable pub add_entries : List IndexEntry → List ℕ → List ℕ → List ℕ × List ℕ
  unfolding add_ports lookup_type
  add_entries [] tcp udp = (tcp, udp)
  add_entries (e ∷ es) tcp udp =
      let (tcp', udp') = add_ports e.ports tcp udp in
      if is_known (lookup_type e.typ types)
      then add_entries es tcp' udp'
      else add_entries es tcp udp

  unfoldable pub host_ports : List IndexEntry → List ℕ × List ℕ
  unfolding add_entries sort_ints
  host_ports es = let (tcp, udp) = add_entries es [] [] in (sort_ints tcp, sort_ints udp)
