-- ===== src/Handlers/Firewall/Opened.antt =====
-- From a save of internal/server/handlers_workload.go to the host ports of the index that
-- internal/nix/stateflake.go then writes.
use mathlib.Core.Option.{some-injective}
use nixbox.Prelude.{
  Bool, Bool-cases, List, Text, [], arith, false, if◌then◌else◌, inl, inr, none, refl, some,
  text_eq, true, ℕ, ◌∙◌, ◌∷◌, ◌≡◌,
}
use nixbox.Nix.Names.{validate_name}
use nixbox.Nix.Ports.{HostPort, parsed, parse_host_ports}
use nixbox.Store.Workloads.{Workload, find_name}
use nixbox.Handlers.{Site, Reply, handle_workload_save}
use nixbox.Handlers.Whole.{IsWhole}
use nixbox.Handlers.Requests.{WorkloadType, lookup_type}
use nixbox.Handlers.Index.{IndexEntry, index_entries, find_entry}
use nixbox.Handlers.Saved.{index-save}
use nixbox.Handlers.Firewall.{has, is_known, host_ports}
use nixbox.Handlers.Firewall.Union.{listed, asked, host_ports-asked}

find_entry-asked :
    (types : List WorkloadType) (udp : Bool) (n : ℕ) (name : Text) (es : List IndexEntry)
    (e : IndexEntry)
    → find_entry name es ≡ some e
    → is_known (lookup_type e.typ types) ≡ true
    → listed udp n e.ports ≡ true
    → asked types udp n es ≡ true
find_entry-asked types udp n name [] e found known l = cc
find_entry-asked types udp n name (d ∷ es) e found known l =
    elim (Bool-cases (text_eq d.name name)) [
      | inl t ↦
          let same : d ≡ e = some-injective _ _ (rw t at found) in
          let known_d : is_known (lookup_type d.typ types) ≡ true = rw same known in
          let listed_d : listed udp n d.ports ≡ true = rw same l in rw (known_d, listed_d) refl
      | inr f ↦
          let rest = find_entry-asked types udp n name es e (rw f at found) known l in ground arith
    ]

asked-has :
    (types : List WorkloadType) (udp : Bool) (n : ℕ) (es : List IndexEntry)
    → asked types udp n es ≡ true
    → has n (if udp then (host_ports types es).1 else (host_ports types es).0) ≡ true
asked-has types true n es h = let (_, in_udp, _, _) = host_ports-asked types es n in in_udp ∙ h
asked-has types false n es h = let (in_tcp, _, _, _) = host_ports-asked types es n in in_tcp ∙ h

-- A save of content and of port rows that parse, on a site where names and ids differ and files hold the
-- latest revisions, for an enabled workload of a registered type, with no fault: the site then makes an
-- index, and every port that the rows ask for with a protocol is among the host ports of that protocol
-- which this index opens.
pub save-opens :
    (types : List WorkloadType) (name content : Text) (ports protos : List Text) (r : Reply)
    (s : Site) (w : Workload) (ps : List HostPort) (udp : Bool) (n : ℕ)
    → IsWhole s
    → validate_name name ≡ none
    → find_name name s.tables.workloads ≡ some w
    → w.enabled ≡ true
    → is_known (lookup_type w.typ types) ≡ true
    → parse_host_ports ports protos ≡ parsed ps
    → r.write_fails ≡ false
    → r.store_fails ≡ false
    → listed udp n ps ≡ true
    → let s' = (handle_workload_save name content ports protos r s).0 in
      (es : List IndexEntry) × (index_entries s'.tables.workloads s'.tables.revisions ≡ some es)
      × (has n (if udp then (host_ports types es).1 else (host_ports types es).0) ≡ true)
save-opens types name content ports protos r s w ps udp n whole valid found on known parse wrote
      stored l =
    let ((es, made, entry), file) =
      index-save name content ports protos r s w ps whole valid found on parse wrote stored in
    (es, made, asked-has types udp n es (find_entry-asked types udp n name es _ entry known l))
