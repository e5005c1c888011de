-- ===== src/Handlers/Saved.antt =====
-- A save of internal/server/handlers_workload.go and the index that regenerateIndex of
-- handlers_system.go then makes.
use mathlib.Core.Path.{subst}
use nixbox.Prelude.{List, Text, [], ap₂, codes, false, none, refl, some, sym, true, ◌∙◌, ◌∷◌, ◌≡◌}
use nixbox.Nix.Names.{validate_name}
use nixbox.Nix.Ports.{HostPort, parsed, parse_host_ports, format_host_ports}
use nixbox.Nix.Ports.RoundTrip.{decode-format-parse}
use nixbox.Store.Workloads.{Workload, find_name, find_id, new_revision, save_revision}
use nixbox.Store.Workloads.Rows.{newest-new_revision}
use nixbox.Handlers.{
  Site, Reply, lookup_workload, store_revision, normalize, handle_workload_save, write_workload,
  put_file, find_file,
}
use nixbox.Handlers.Keys.{find_name-name, find_name-find_id}
use nixbox.Handlers.Files.{find_file-put_file}
use nixbox.Handlers.Mirror.{serve-IsWhole}
use nixbox.Handlers.Requests.{save, serve}
use nixbox.Handlers.Whole.{IsWhole}
use nixbox.Handlers.Index.{
  IndexEntry, index_entries, find_entry, index_entries-total, find_entry-index,
}

store_revision_lem :
    (w : Workload) (content ports note : Text) (r : Reply) (s : Site) (u : Workload)
    → validate_name w.name ≡ none
    → r.write_fails ≡ false
    → r.store_fails ≡ false
    → find_id w.id s.tables.workloads ≡ some u
    → store_revision w content ports note r s ≡ (
      record {
        tables = record s.tables {
          revisions = new_revision w.id content ports note s.tables.revisions ∷ s.tables.revisions;
        };
        files = put_file w.name content s.files;
      },
      true,
    )
unfolding store_revision write_workload save_revision
store_revision_lem w content ports note r s u valid wrote stored row =
    let put : write_workload w.name content r.write_fails s.files
        ≡ some (put_file w.name content s.files) =
      rw (valid, write_workload) (rw wrote refl) in
    rw (put, store_revision) (rw stored (rw (row, save_revision) refl))

abbrev pub saved_site : Workload → (content ports note : Text) → Site → Site
saved_site w content ports note s = record {
  tables = record s.tables {
    revisions = new_revision w.id content ports note s.tables.revisions ∷ s.tables.revisions;
  };
  files = put_file w.name content s.files;
}

handle_workload_save-saved_site :
    (name content : Text) (ports protos : List Text) (r : Reply) (s : Site) (w : Workload)
    (ps : List HostPort)
    → validate_name name ≡ none
    → find_name name s.tables.workloads ≡ some w
    → parse_host_ports ports protos ≡ parsed ps
    → r.write_fails ≡ false
    → r.store_fails ≡ false
    → (handle_workload_save name content ports protos r s).0
      ≡ saved_site w (normalize content) (format_host_ports ps) (codes "edit") s
unfolding handle_workload_save lookup_workload
handle_workload_save-saved_site name content ports protos r s w ps valid found parse wrote stored =
    let own = find_name-name name s.tables.workloads w found in
    let valid_w : validate_name w.name ≡ none = rw own valid in
    let (u, row) = find_name-find_id name s.tables.workloads w found in
    let done =
      store_revision_lem w (normalize content) (format_host_ports ps) (codes "edit") r s u valid_w
        wrote stored row in
    rw (valid, lookup_workload) (rw found (rw parse (rw done refl)))

abbrev Indexed : Text → Workload → List HostPort → Text → Site → Type 0
Indexed name w ps text s =
    ((es : List IndexEntry) × (index_entries s.tables.workloads s.tables.revisions ≡ some es)
      × (find_entry name es ≡ some (record { name = name; typ = w.typ; ports = ps })))
    × (find_file name s.files ≡ some text)

pub index-save :
    (name content : Text) (ports protos : List Text) (r : Reply) (s : Site) (w : Workload)
    (ps : List HostPort)
    → IsWhole s
    → validate_name name ≡ none
    → find_name name s.tables.workloads ≡ some w
    → w.enabled ≡ true
    → parse_host_ports ports protos ≡ parsed ps
    → r.write_fails ≡ false
    → r.store_fails ≡ false
    → let s' = (handle_workload_save name content ports protos r s).0 in
      ((es : List IndexEntry) × (index_entries s'.tables.workloads s'.tables.revisions ≡ some es)
        × (find_entry name es ≡ some (record { name = name; typ = w.typ; ports = ps })))
      × (find_file name s'.files ≡ some (normalize content))
unfolding serve
index-save name content ports protos r s w ps whole valid found on parse wrote stored =
    let text = normalize content in
    let stored_ports = format_host_ports ps in
    let s' = saved_site w text stored_ports (codes "edit") s in
    let same =
      handle_workload_save-saved_site name content ports protos r s w ps valid found parse wrote
        stored in
    let (_, mirrored) : IsWhole s' =
      subst IsWhole same (serve-IsWhole [] (save name content ports protos) r s stored whole) in
    let (es, made) =
      index_entries-total s'.tables.workloads s'.tables.revisions s'.files mirrored in
    let latest = newest-new_revision w.id text stored_ports (codes "edit") s.tables.revisions in
    let own = find_name-name name s.tables.workloads w found in
    let entry =
      find_entry-index name s'.tables.workloads s'.tables.revisions w
        (new_revision w.id text stored_ports (codes "edit") s.tables.revisions) s'.files es mirrored
        found on latest made in
    subst (λ (x : Site). Indexed name w ps text x) (sym same)
      (
        (
          es,
          made,
          entry
              ∙ ap₂ (λ n q. some (record { name = n; typ = w.typ; ports = q })) own
                  (decode-format-parse ports protos ps parse),
        ),
        rw own (find_file-put_file name text s.files),
      )
