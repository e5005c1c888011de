-- ===== src/Handlers/Requests.antt =====
-- The creation of a workload in internal/server/handlers_workload.go, and requests in any order. The
-- registry of types is a parameter.
use nixbox.Prelude.{Bool, List, Option, Text, [], if◌then◌else◌, none, some, text_eq, ℕ, ◌∷◌}
use nixbox.Nix.Names.{NameError, validate_display_name}
use nixbox.Nix.Ports.{HostPort, trim_space, format_host_ports}
use nixbox.Store.Workloads.{Workload, Tables, find_name, create_workload}
use nixbox.Handlers.{
  Site, Reply, Answer, refused, fault, redirect, write_workload, handle_workload_save,
  handle_workload_restore, set_enabled, handle_workload_rename, handle_workload_destroy,
}

pub record Template : Type 0 where
  pub id : Text
  pub content : Text
  pub ports : List HostPort

pub record WorkloadType : Type 0 where
  pub id : Text
  pub validate : Text → Option NameError
  pub templates : List Template

unfoldable pub lookup_type : Text → List WorkloadType → Option WorkloadType
lookup_type id [] = none
lookup_type id (t ∷ ts) = let rest = lookup_type id ts in if text_eq t.id id then some t else rest

unfoldable pub template_by_id : Text → List Template → Option Template
template_by_id id [] = none
template_by_id id (t ∷ ts) =
    let rest = template_by_id id ts in if text_eq t.id id then some t else rest

abbrev pub created : Site → Option Tables → Site × Answer
created s none = (s, fault)
created s (some t) = (record s { tables = t }, redirect)

-- From WriteWorkload on.
abbrev pub create_written :
    Option (List (Text × Text))
    → (name display_name : Text) → WorkloadType
    → Template
    → Reply
    → Site
    → Site × Answer
create_written none name display_name wt tmpl r s = (s, fault)
create_written (some files) name display_name wt tmpl r s =
    let written = record s { files = files } in
    if r.store_fails
    then (written, fault)
    else created written (
        create_workload name display_name wt.id tmpl.content (format_host_ports tmpl.ports)
          s.tables)

abbrev pub create_new :
    Option Workload
    → (name display_name : Text) → WorkloadType
    → Template
    → Reply
    → Site
    → Site × Answer
create_new (some w) name display_name wt tmpl r s = (s, refused)
create_new none name display_name wt tmpl r s =
    create_written (write_workload name tmpl.content r.write_fails s.files) name display_name wt
      tmpl r s

abbrev pub create_from :
    Option Template → (name display_name : Text) → WorkloadType → Reply → Site → Site × Answer
create_from none name display_name wt r s = (s, refused)
create_from (some tmpl) name display_name wt r s =
    create_new (find_name name s.tables.workloads) name display_name wt tmpl r s

-- The answers of the two checks of names come first.
abbrev pub create_checked :
    (name_error display_error : Option NameError)
    → (name display_name template : Text) → WorkloadType
    → Reply
    → Site
    → Site × Answer
create_checked (some err) e name display_name template wt r s = (s, refused)
create_checked none (some err) name display_name template wt r s = (s, refused)
create_checked none none name display_name template wt r s =
    create_from (template_by_id template wt.templates) name display_name wt r s

abbrev pub create_typed :
    Option WorkloadType → (name display_name template : Text) → Reply → Site → Site × Answer
create_typed none name display_name template r s = (s, refused)
create_typed (some wt) name display_name template r s =
    create_checked (wt.validate name) (validate_display_name display_name) name display_name
      template wt r s

module _ (types : List WorkloadType) where
  unfoldable pub handle_workload_create :
      (name display_name typ template : Text) → Reply → Site → Site × Answer
  unfolding lookup_type template_by_id write_workload create_workload find_name
      validate_display_name trim_space
  handle_workload_create name display_name typ template r s =
      create_typed (lookup_type typ types) (trim_space name) (trim_space display_name) template r s

pub data Request : Type 0 where
  create : (name display_name typ template : Text) → Request
  save : Text → (content : Text) → (ports protos : List Text) → Request
  restore : Text → ℕ → Request
  enable : Text → Bool → Request
  rename : Text → Text → Request
  destroy : Text → (confirm : Text) → (busy : Bool) → Request

module _ (types : List WorkloadType) where
  unfoldable pub serve : Request → Reply → Site → Site × Answer
  unfolding handle_workload_create handle_workload_save handle_workload_restore set_enabled
      handle_workload_rename handle_workload_destroy
  serve (create name display_name typ template) r s =
      handle_workload_create types name display_name typ template r s
  serve (save name content ports protos) r s = handle_workload_save name content ports protos r s
  serve (restore name rid) r s = handle_workload_restore name rid r s
  serve (enable name on) r s = set_enabled name on r s
  serve (rename name label) r s = handle_workload_rename name label r s
  serve (destroy name confirm busy) r s = handle_workload_destroy name confirm busy r s

  unfoldable pub run : Site → List (Request × Reply) → Site
  unfolding serve
  run s [] = s
  run s ((q, r) ∷ rest) = run (serve q r s).0 rest
