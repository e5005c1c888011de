-- ===== src/Handlers/Whole.antt =====
-- The requests of internal/server/handlers_workload.go that find a workload, one at a time: the workload
-- files beside the tables.
use mathlib.Core.Path.{subst}
use nixbox.Prelude.{
  Bool, Option, Option-cases, Text, codes, false, if◌then◌else◌, inl, inr, map, map-All, none, not,
  refl, some, sym, text_eq, true, ℕ, ◌++◌, ◌≡◌,
}
use nixbox.Nix.Names.{NameError, validate_name}
use nixbox.Nix.Ports.{Parsed, parsed, invalid_port, invalid_protocol, format_host_ports, decimal}
use nixbox.Store.Workloads.{
  Workload, Revision, find_name, update_id, set_workload_enabled, set_workload_display_name,
}
use nixbox.Handlers.{
  Site, Reply, Answer, lookup_workload, store_revision, save_parsed, restore_found, rename_valid,
  handle_workload_destroy,
}
use nixbox.Handlers.Keys.{Keyed, Keeps, update-Keyed, update_id-Keeps}
use nixbox.Handlers.Files.{Mirrored, AllMirrored, store_revision-AllMirrored}

abbrev pub IsWhole : Site → Type 0
IsWhole s = Keyed s.tables.workloads × AllMirrored s

pub lookup_workload-IsWhole :
    (name : Text) (go : Workload → Site × Answer) (s : Site)
    → ((w : Workload) → find_name name s.tables.workloads ≡ some w → IsWhole (go w).0)
    → IsWhole s
    → IsWhole (lookup_workload name go s).0
unfolding lookup_workload
lookup_workload-IsWhole name go s step h = elim (Option-cases (validate_name name)) [
  | inr (err, bad) ↦ rw (bad, lookup_workload) h
  | inl valid ↦ elim (Option-cases (find_name name s.tables.workloads)) [
    | inl absent_ ↦ rw (valid, lookup_workload) (rw absent_ h)
    | inr (w, found) ↦ rw (valid, lookup_workload) (rw found (step w found))
  ]
]

store_revision-IsWhole :
    (name : Text) (w : Workload) (content ports note : Text) (r : Reply) (s : Site)
    → r.store_fails ≡ false
    → find_name name s.tables.workloads ≡ some w
    → IsWhole s
    → IsWhole (store_revision w content ports note r s).0
store_revision-IsWhole name w content ports note r s stored found (key, h) =
    let (same, h') = store_revision-AllMirrored name w content ports note r s stored found key h in
    (subst Keyed (sym same) key, h')

pub save_parsed-IsWhole :
    (name : Text) (w : Workload) (content : Text) (r : Reply) (s : Site) (ps : Parsed)
    → r.store_fails ≡ false
    → find_name name s.tables.workloads ≡ some w
    → IsWhole s
    → IsWhole (save_parsed w content r s ps).0
save_parsed-IsWhole name w content r s (invalid_port t) stored found h = h
save_parsed-IsWhole name w content r s (invalid_protocol t) stored found h = h
save_parsed-IsWhole name w content r s (parsed ps) stored found h =
    store_revision-IsWhole name w content (format_host_ports ps) (codes "edit") r s stored found h

pub restore_found-IsWhole :
    (name : Text) (w : Workload) (target : Option Revision) (r : Reply) (s : Site)
    → r.store_fails ≡ false
    → find_name name s.tables.workloads ≡ some w
    → IsWhole s
    → IsWhole (restore_found w target r s).0
restore_found-IsWhole name w none r s stored found h = h
restore_found-IsWhole name w (some t) r s stored found h =
    store_revision-IsWhole name w t.content t.ports (codes "restore of #" ++ decimal t.id) r s
      stored found h

update-IsWhole :
    (f : Workload → Workload) (id : ℕ) (s : Site)
    → Keeps f
    → IsWhole s
    → IsWhole (record s {
      tables = record s.tables { workloads = map (update_id f id) s.tables.workloads };
    })
update-IsWhole f id s keep (key, h) =
    let M = Mirrored s.tables.revisions s.files in
    (
      update-Keyed f id s.tables.workloads keep key,
      map-All M M (update_id f id) s.tables.workloads
          (λ v (r, latest, held).
            let (i, n) = update_id-Keeps f id keep v in (r, rw i latest, rw n held))
          h,
    )

pub set_enabled-IsWhole :
    (id : ℕ) (on : Bool) (s : Site)
    → IsWhole s
    → IsWhole (record s { tables = set_workload_enabled id on s.tables })
unfolding set_workload_enabled
set_enabled-IsWhole id on s h =
    update-IsWhole (λ w. record w { enabled = on }) id s (λ w. (refl, refl)) h

set_display_name-IsWhole :
    (id : ℕ) (label : Text) (s : Site)
    → IsWhole s
    → IsWhole (record s { tables = set_workload_display_name id label s.tables })
unfolding set_workload_display_name
set_display_name-IsWhole id label s h =
    update-IsWhole (λ w. record w { display_name = label }) id s (λ w. (refl, refl)) h

pub if-IsWhole :
    (c : Bool) (a b : Site × Answer) → IsWhole a.0 → IsWhole b.0 → IsWhole (if c then a else b).0
if-IsWhole true a b h g = h
if-IsWhole false a b h g = g

pub rename_valid-IsWhole :
    (err : Option NameError) (w : Workload) (label : Text) (r : Reply) (s : Site)
    → IsWhole s
    → IsWhole (rename_valid err w label r s).0
rename_valid-IsWhole (some err) w label r s h = h
rename_valid-IsWhole none w label r s h =
    if-IsWhole r.store_fails _ _ h (set_display_name-IsWhole w.id label s h)

pub destroy-IsWhole :
    (name confirm : Text) (busy : Bool) (r : Reply) (s : Site)
    → IsWhole s
    → IsWhole (handle_workload_destroy name confirm busy r s).0
unfolding handle_workload_destroy
destroy-IsWhole name confirm busy r s h =
    lookup_workload-IsWhole name _ s
      (λ w found.
        let off = set_enabled-IsWhole w.id false s h in
        if-IsWhole (not (text_eq confirm w.name)) _ _ h (
          if-IsWhole r.store_fails _ _ h
            (if-IsWhole r.write_fails _ _ off (if-IsWhole busy _ _ off off))))
      h
