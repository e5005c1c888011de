-- ===== src/Tests/Handlers.antt =====
-- Requests that create, save, restore, enable, rename and destroy workloads.
use nixbox.Nix.Rebuild.{done}
use nixbox.Handlers.Removal.{destroy_end, destroy_end-removes}
use nixbox.Handlers.Firewall.{has, host_ports}
use nixbox.Handlers.Firewall.Union.{IsAscending, host_ports-asked}
use nixbox.Handlers.Firewall.Opened.{save-opens}
use nixbox.Prelude.{List, [], codes, false, none, refl, some, true, ◌∷◌, ◌≡◌}
use nixbox.Nix.Names.{validate_name, validate_container_name}
use nixbox.Nix.Ports.{HostPort, parse_host_ports}
use nixbox.Store.Workloads.{Workload, find_name, newest}
use nixbox.Handlers.{
  Site, Reply, handle_workload_save, handle_workload_destroy, conflict, find_file,
}
use nixbox.Handlers.Requests.{
  lookup_type, Template, WorkloadType, Request, create, save, restore, enable, rename, destroy, run,
}
use nixbox.Handlers.Requests
use nixbox.Handlers.Whole.{IsWhole}
use nixbox.Handlers.Mirror.{run-IsWhole}
use nixbox.Handlers.Index.{IndexEntry, index_entries}
use nixbox.Handlers.Destroy.{destroy-answer}

abbrev blank : Template
blank = record { id = codes "blank"; content = codes "{ }"; ports = [] }

abbrev container : WorkloadType
container = record {
  id = codes "container";
  validate = validate_container_name;
  templates = blank ∷ [];
}

abbrev web : Workload
web = record {
  id = 1;
  name = codes "web";
  display_name = [];
  typ = codes "container";
  enabled = true;
  applied_revision_id = none;
}

abbrev site : Site
site = record {
  tables = record {
    workloads = web ∷ [];
    revisions =
        record {
          id = 1;
          workload_id = 1;
          content = codes "{ }";
          ports = [];
          note = codes "created";
        }
        ∷ [];
  };
  files = (codes "web", codes "{ }") ∷ [];
}

site-IsWhole : IsWhole site
unfolding newest find_file
site-IsWhole = (
  (tt, tt),
  (
    (
      record { id = 1; workload_id = 1; content = codes "{ }"; ports = []; note = codes "created" },
      refl,
      refl,
    ),
    tt,
  ),
)

abbrev fine : Reply
fine = record { write_fails = false; store_fails = false; syntax_fails = false }

abbrev full_disk : Reply
full_disk = record fine { write_fails = true }

abbrev requests : List (Request × Reply)
requests =
    (create (codes "db ") (codes "Data") (codes "container") (codes "blank"), fine)
    ∷ (save (codes "web") (codes "{ a = 1; }") (codes "80" ∷ []) (codes "tcp" ∷ []), fine)
    ∷ (save (codes "db") (codes "{ b = 2; }") (codes "x" ∷ []) (codes "tcp" ∷ []), fine)
    ∷ (restore (codes "web") 1, full_disk)
    ∷ (restore (codes "web") 1, fine)
    ∷ (rename (codes "db") (codes "Base"), fine)
    ∷ (destroy (codes "db") (codes "db") true, fine)
    ∷ []

run-IsWhole_example : IsWhole (Requests.run (container ∷ []) site requests)
run-IsWhole_example =
    run-IsWhole (container ∷ []) site requests
      (refl, (refl, (refl, (refl, (refl, (refl, (refl, tt))))))) site-IsWhole

abbrev http : HostPort
http = record { port = 80; proto = codes "tcp" }

-- The name is typed right, and another job is running.
destroy-answer_example :
    let (s, answer) = handle_workload_destroy (codes "web") (codes "web") true fine site in
    (answer ≡ conflict)
    × (find_name (codes "web") s.tables.workloads ≡ some (record web { enabled = false }))
unfolding validate_name find_name
destroy-answer_example =
    destroy-answer (codes "web") (codes "web") true fine site web refl refl refl refl

abbrev dns : HostPort
dns = record { port = 53; proto = codes "udp" }

abbrev entries : List IndexEntry
entries =
    record { name = codes "web"; typ = codes "container"; ports = http ∷ dns ∷ [] }
    ∷ record { name = codes "old"; typ = codes "vm"; ports = record http { port = 22 } ∷ [] }
    ∷ record {
      name = codes "api";
      typ = codes "container";
      ports = http ∷ record http { port = 8 } ∷ [];
    }
    ∷ []

host_ports-asked_example :
    let (tcp, udp) = host_ports (container ∷ []) entries in
    (has 80 tcp ≡ true) × (has 80 udp ≡ false) × IsAscending tcp × IsAscending udp
unfolding lookup_type
host_ports-asked_example = host_ports-asked (container ∷ []) entries 80

ports_of_entries : host_ports (container ∷ []) entries ≡ (8 ∷ 80 ∷ [], 53 ∷ [])
unfolding host_ports
ports_of_entries = refl

save-opens_example :
    let s =
      (handle_workload_save
        (codes "web")
        (codes "{ a = 1; }")
        (codes "80" ∷ [])
        (codes "tcp" ∷ [])
        fine
        site).0 in
    (es : List IndexEntry) × (index_entries s.tables.workloads s.tables.revisions ≡ some es)
    × (has 80 (host_ports (container ∷ []) es).0 ≡ true)
unfolding validate_name find_name parse_host_ports lookup_type
save-opens_example =
    save-opens (container ∷ []) (codes "web") (codes "{ a = 1; }") (codes "80" ∷ [])
      (codes "tcp" ∷ []) fine site web (http ∷ []) false 80 site-IsWhole refl refl refl refl refl
      refl refl refl

destroy_end-removes_example :
    let (s, ok) = destroy_end (done (some 9)) 1 (codes "web") fine site in
    (ok ≡ true)
    × (find_name (codes "web") s.tables.workloads ≡ none)
    × (find_file (codes "web") s.files ≡ none)
    × IsWhole s
unfolding validate_name find_name
destroy_end-removes_example =
    destroy_end-removes (some 9) (codes "web") fine site web site-IsWhole refl refl refl refl
