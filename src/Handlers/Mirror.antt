-- ===== src/Handlers/Mirror.antt =====
-- The requests of internal/server/handlers_workload.go in any order: the workload files beside the
-- tables.
use nixbox.Prelude.{
  All, List, Option, Text, [], and-All, codes, false, imp-All, inl, inr, none, refl, some, suc, sym,
  text_eq, ◌==◌, ◌∙◌, ◌∷◌, ◌≡◌,
}
use nixbox.Nix.Names.{NameError, validate_display_name}
use nixbox.Nix.Ports.{parse_host_ports, format_host_ports, trim_space}
use nixbox.Store.Workloads.{Workload, find_name, max_workload, create_workload, new_revision}
use nixbox.Store.Workloads.Rows.{newest-new_revision}
use nixbox.Handlers.{
  Site, Reply, find_revision, normalize, handle_workload_save, handle_workload_restore, set_enabled,
  handle_workload_rename, put_file,
}
use nixbox.Handlers.Keys.{new-Apart}
use nixbox.Handlers.Files.{Mirrored, put-Mirrored, write_workload-cases, find_file-put_file}
use nixbox.Handlers.Requests.{
  create_checked, created, WorkloadType, Template, Request, create, save, restore, enable, rename,
  destroy, serve, run, lookup_type, template_by_id, create_typed, create_from, create_new,
  handle_workload_create,
}
use nixbox.Handlers.Whole.{
  IsWhole, lookup_workload-IsWhole, save_parsed-IsWhole, restore_found-IsWhole, set_enabled-IsWhole,
  if-IsWhole, rename_valid-IsWhole, destroy-IsWhole,
}

created-IsWhole :
    (name label typ content ports : Text) (s : Site)
    → find_name name s.tables.workloads ≡ none
    → IsWhole s
    → let written = record s { files = put_file name content s.files } in
      IsWhole (created written (create_workload name label typ content ports s.tables)).0
unfolding create_workload
created-IsWhole name label typ content ports s free (key, h) =
    let rs = s.tables.revisions in
    let ws = s.tables.workloads in
    let wid = suc (max_workload ws) in
    let new_keys = new-Apart name ws free in
    let Fresh = λ (v : Workload). ((v.id == wid) ≡ false) × (text_eq v.name name ≡ false) in
    let note = codes "created" in
    rw (free, create_workload)
      (
        (new_keys, key),
        (
          (
            new_revision wid content ports note rs,
            newest-new_revision wid content ports note rs,
            find_file-put_file name content s.files,
          ),
          imp-All (λ (v : Workload). Fresh v × Mirrored rs s.files v)
              (Mirrored (new_revision wid content ports note rs ∷ rs)
                (put_file name content s.files))
              ws
              (λ v ((i, n), kept).
                put-Mirrored wid name content ports note rs s.files v (i ∙ sym n) (λ _. kept))
              (and-All Fresh (Mirrored rs s.files) ws new_keys h),
        ),
      )

create_new-IsWhole :
    (found : Option Workload) (name label : Text) (wt : WorkloadType) (tmpl : Template) (r : Reply)
    (s : Site)
    → r.store_fails ≡ false
    → find_name name s.tables.workloads ≡ found
    → IsWhole s
    → IsWhole (create_new found name label wt tmpl r s).0
create_new-IsWhole (some w) name label wt tmpl r s stored e h = h
create_new-IsWhole none name label wt tmpl r s stored e h =
    elim (write_workload-cases name tmpl.content r.write_fails s.files) [
      | inl refused_ ↦ rw refused_ h
      | inr put ↦ rw put (
          rw stored
            (created-IsWhole name label wt.id tmpl.content (format_host_ports tmpl.ports) s e h))
    ]

create_from-IsWhole :
    (tmpl : Option Template) (name label : Text) (wt : WorkloadType) (r : Reply) (s : Site)
    → r.store_fails ≡ false
    → IsWhole s
    → IsWhole (create_from tmpl name label wt r s).0
create_from-IsWhole none name label wt r s stored h = h
create_from-IsWhole (some tmpl) name label wt r s stored h =
    create_new-IsWhole (find_name name s.tables.workloads) name label wt tmpl r s stored refl h

create_checked-IsWhole :
    (e d : Option NameError) (name label template : Text) (wt : WorkloadType) (r : Reply) (s : Site)
    → r.store_fails ≡ false
    → IsWhole s
    → IsWhole (create_checked e d name label template wt r s).0
create_checked-IsWhole (some err) d name label template wt r s stored h = h
create_checked-IsWhole none (some err) name label template wt r s stored h = h
create_checked-IsWhole none none name label template wt r s stored h =
    create_from-IsWhole (template_by_id template wt.templates) name label wt r s stored h

create_typed-IsWhole :
    (wt : Option WorkloadType) (name label template : Text) (r : Reply) (s : Site)
    → r.store_fails ≡ false
    → IsWhole s
    → IsWhole (create_typed wt name label template r s).0
create_typed-IsWhole none name label template r s stored h = h
create_typed-IsWhole (some wt) name label template r s stored h =
    create_checked-IsWhole (wt.validate name) (validate_display_name label) name label template wt r
      s stored h

module _ (types : List WorkloadType) where
  pub serve-IsWhole :
      (q : Request) (r : Reply) (s : Site)
      → r.store_fails ≡ false
      → IsWhole s
      → IsWhole (serve types q r s).0
  unfolding serve handle_workload_create handle_workload_save handle_workload_restore set_enabled
      handle_workload_rename
  serve-IsWhole (create name label typ template) r s stored h =
      create_typed-IsWhole (lookup_type typ types) (trim_space name) (trim_space label) template r s
        stored h
  serve-IsWhole (save name content ports protos) r s stored h =
      lookup_workload-IsWhole name _ s
        (λ w found.
          save_parsed-IsWhole name w (normalize content) r s (parse_host_ports ports protos) stored
            found h)
        h
  serve-IsWhole (restore name rid) r s stored h =
      lookup_workload-IsWhole name _ s
        (λ w found.
          restore_found-IsWhole name w (find_revision w.id rid s.tables.revisions) r s stored found
            h)
        h
  serve-IsWhole (enable name on) r s stored h =
      lookup_workload-IsWhole name _ s
        (λ w found. if-IsWhole r.store_fails _ _ h (set_enabled-IsWhole w.id on s h)) h
  serve-IsWhole (rename name label) r s stored h =
      lookup_workload-IsWhole name _ s
        (λ w found.
          rename_valid-IsWhole (validate_display_name (trim_space label)) w (trim_space label) r s
            h)
        h
  serve-IsWhole (destroy name confirm busy) r s stored h = destroy-IsWhole name confirm busy r s h

  -- Requests in any order, in none of which the store reports an error (writing a file or the index may
  -- fail): if no two workloads have the same id or name at first and the file of each holds the content
  -- of its latest revision, then this is so after them.
  pub run-IsWhole :
      (s : Site) (qs : List (Request × Reply))
      → All (λ (q : Request × Reply). q.1.store_fails ≡ false) qs
      → IsWhole s
      → IsWhole (run types s qs)
  unfolding run
  run-IsWhole s [] stored h = h
  run-IsWhole s ((q, r) ∷ qs) (e, stored) h =
      run-IsWhole (serve types q r s).0 qs stored (serve-IsWhole q r s e h)
