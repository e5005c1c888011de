-- ===== src/Handlers.antt =====
-- The requests of internal/server/handlers_workload.go that change a workload, over the tables and the
-- files of the state flake, and the entries of the index that regenerateIndex of handlers_system.go
-- makes. A reply says which of a request's calls fail; a read that fails is answered with 500 and changes
-- nothing, and is left out.
pub mod Keys
pub mod Destroy
pub mod Files
pub mod Firewall
pub mod Mirror
pub mod Index
pub mod Requests
pub mod Removal
pub mod Saved
pub mod Whole
use nixbox.Prelude.{
  Bool, List, Option, Text, [], codes, false, if◌then◌else◌, none, not, some, text_eq, true, ℕ,
  ◌&&◌, ◌++◌, ◌==◌, ◌∷◌,
}
use nixbox.Nix.Names.{NameError, validate_name, validate_display_name}
use nixbox.Nix.Ports.{
  HostPort, Parsed, parsed, invalid_port, invalid_protocol, trim_space, parse_host_ports,
  format_host_ports, decode_host_ports, decimal,
}
use nixbox.Store.Workloads.{
  Workload, Revision, Tables, find_name, newest, create_workload, save_revision,
  set_workload_enabled, set_workload_display_name,
}

-- The tables, and the text of workloads/<name>/workload.nix for each name that has one.
pub record Site : Type 0 where
  pub tables : Tables
  pub files : List (Text × Text)

pub record Reply : Type 0 where
  pub write_fails : Bool
  pub store_fails : Bool
  pub syntax_fails : Bool

-- bad_request is 400, not_found 404, conflict 409, refused 422 and fault 500; save_error and saved are
-- the fragments of a save.
pub data Answer : Type 0 where
  bad_request not_found conflict refused fault save_error saved redirect started : Answer

unfoldable pub find_file : Text → List (Text × Text) → Option Text
find_file name [] = none
find_file name ((k, text) ∷ fs) =
    let rest = find_file name fs in if text_eq k name then some text else rest

unfoldable pub put_file : Text → Text → List (Text × Text) → List (Text × Text)
put_file name text [] = (name, text) ∷ []
put_file name text ((k, old) ∷ fs) =
    let rest = put_file name text fs in if text_eq k name then (k, text) ∷ fs else (k, old) ∷ rest

-- WriteWorkload, which writes the whole file or nothing.
unfoldable pub write_workload :
    Text → Text → (fails : Bool) → List (Text × Text) → Option (List (Text × Text))
unfolding validate_name put_file
write_workload name text fails files = elim (validate_name name) [
  | some _ ↦ none
  | none ↦ if fails then none else some (put_file name text files)
]

abbrev pub looked_up : Option Workload → (Workload → Site × Answer) → Site → Site × Answer
looked_up none go s = (s, not_found)
looked_up (some w) go s = go w

-- lookupWorkload, with what a handler does then.
unfoldable pub lookup_workload : Text → (Workload → Site × Answer) → Site → Site × Answer
unfolding validate_name find_name
lookup_workload name go s = elim (validate_name name) [
  | some _ ↦ (s, bad_request)
  | none ↦ looked_up (find_name name s.tables.workloads) go s
]

abbrev pub or_fault : Site → Option Tables → Site × Bool
or_fault s none = (s, false)
or_fault s (some t) = (record s { tables = t }, true)

abbrev pub then_save :
    Option (List (Text × Text))
    → Workload
    → (content ports note : Text) → Reply
    → Site
    → Site × Bool
then_save none w content ports note r s = (s, false)
then_save (some files) w content ports note r s =
    let written = record s { files = files } in
    if r.store_fails
    then (written, false)
    else or_fault written (save_revision w.id content ports note s.tables)

-- WriteWorkload and then SaveRevision, and whether both went well.
unfoldable pub store_revision : Workload → (content ports note : Text) → Reply → Site → Site × Bool
unfolding write_workload save_revision
store_revision w content ports note r s =
    then_save (write_workload w.name content r.write_fails s.files) w content ports note r s

unfoldable pub has_newline : Text → Bool
has_newline [] = false
has_newline (c ∷ []) = c == 10
has_newline (c ∷ d ∷ s) = has_newline (d ∷ s)

-- strings.ReplaceAll(content, "\r\n", "\n")
unfoldable pub replace_crlf : Text → Text
replace_crlf [] = []
replace_crlf (c ∷ []) = c ∷ []
replace_crlf (c ∷ d ∷ s) =
    let rest = replace_crlf (d ∷ s) in if c == 13 && d == 10 then rest else c ∷ rest

unfoldable pub normalize : Text → Text
unfolding has_newline replace_crlf
normalize content = replace_crlf (if has_newline content then content else content ++ 10 ∷ [])

abbrev pub save_parsed : Workload → Text → Reply → Site → Parsed → Site × Answer
save_parsed w content r s (invalid_port t) = (s, save_error)
save_parsed w content r s (invalid_protocol t) = (s, save_error)
save_parsed w content r s (parsed ps) =
    let (s', ok) = store_revision w content (format_host_ports ps) (codes "edit") r s in
    (s', if ok then (if r.syntax_fails then save_error else saved) else fault)

unfoldable pub handle_workload_save :
    Text → (content : Text) → (ports protos : List Text) → Reply → Site → Site × Answer
unfolding lookup_workload store_revision normalize parse_host_ports
handle_workload_save name content ports protos r s =
    lookup_workload name
      (λ w. save_parsed w (normalize content) r s (parse_host_ports ports protos)) s

-- A revision of the workload with this id.
unfoldable pub find_revision : (wid rid : ℕ) → List Revision → Option Revision
find_revision wid rid [] = none
find_revision wid rid (r ∷ rs) =
    let rest = find_revision wid rid rs in
    if r.workload_id == wid && r.id == rid then some r else rest

abbrev pub restore_found : Workload → Option Revision → Reply → Site → Site × Answer
restore_found w none r s = (s, not_found)
restore_found w (some target) r s =
    let note = codes "restore of #" ++ decimal target.id in
    let (s', ok) = store_revision w target.content target.ports note r s in
    (s', if ok then redirect else fault)

unfoldable pub handle_workload_restore : Text → (rid : ℕ) → Reply → Site → Site × Answer
unfolding lookup_workload store_revision find_revision
handle_workload_restore name rid r s =
    lookup_workload name (λ w. restore_found w (find_revision w.id rid s.tables.revisions) r s) s

unfoldable pub set_enabled : Text → Bool → Reply → Site → Site × Answer
unfolding lookup_workload set_workload_enabled
set_enabled name enabled r s =
    lookup_workload name
      (λ w.
        if r.store_fails
        then (s, fault)
        else (record s { tables = set_workload_enabled w.id enabled s.tables }, redirect))
      s

abbrev pub rename_valid : Option NameError → Workload → Text → Reply → Site → Site × Answer
rename_valid (some err) w name r s = (s, refused)
rename_valid none w name r s =
    if r.store_fails
    then (s, fault)
    else (record s { tables = set_workload_display_name w.id name s.tables }, redirect)

unfoldable pub handle_workload_rename : Text → (display_name : Text) → Reply → Site → Site × Answer
unfolding lookup_workload set_workload_display_name validate_display_name trim_space
handle_workload_rename name display_name r s =
    let label = trim_space display_name in
    lookup_workload name (λ w. rename_valid (validate_display_name label) w label r s) s

-- The handler up to its answer; its job is in Handlers.Removal. `write_fails` is about
-- the index, and `busy` the answer of the job manager, whose other errors are left out.
unfoldable pub handle_workload_destroy :
    Text → (confirm : Text) → (busy : Bool) → Reply → Site → Site × Answer
unfolding lookup_workload set_workload_enabled
handle_workload_destroy name confirm busy r s =
    lookup_workload name
      (λ w.
        let disabled = record s { tables = set_workload_enabled w.id false s.tables } in
        if not (text_eq confirm w.name)
        then (s, refused)
        else if r.store_fails
        then (s, fault)
        else if r.write_fails
        then (disabled, fault)
        else if busy
        then (disabled, conflict)
        else (disabled, started))
      s
