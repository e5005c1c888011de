-- ===== src/Handlers/Index.antt =====
-- The entries that regenerateIndex of internal/server/handlers_system.go makes, without those of
-- secrets.
use mathlib.Core.Option.{some-injective}
use nixbox.Prelude.{
  All, Bool-cases, List, Option, Text, [], ap, ap₂, false, if◌then◌else◌, inl, inr, none, not, refl,
  some, sym, text_eq, true, ◌∙◌, ◌∷◌, ◌≡◌,
}
use nixbox.Nix.Ports.{HostPort, decode_host_ports}
use nixbox.Store.Workloads.{Workload, Revision, find_name, newest}
use nixbox.Handlers.Files.{Mirrored}

pub record IndexEntry : Type 0 where
  pub name : Text
  pub typ : Text
  pub ports : List HostPort

abbrev pub entry_of : Workload → Revision → IndexEntry
entry_of w r = record { name = w.name; typ = w.typ; ports = decode_host_ports r.ports }

abbrev pub with_entry :
    Workload → Option Revision → Option (List IndexEntry) → Option (List IndexEntry)
with_entry w none es = none
with_entry w (some r) none = none
with_entry w (some r) (some es) = some (entry_of w r ∷ es)

-- The entries, or `none` if an enabled workload has no revision.
unfoldable pub index_entries : List Workload → List Revision → Option (List IndexEntry)
unfolding newest decode_host_ports
index_entries [] rs = some []
index_entries (w ∷ ws) rs =
    let rest = index_entries ws rs in
    if not w.enabled then rest else with_entry w (newest w.id rs) rest

abbrev pub find_entry : Text → List IndexEntry → Option IndexEntry
find_entry name [] = none
find_entry name (e ∷ es) =
    let rest = find_entry name es in if text_eq e.name name then some e else rest

index_on :
    (v : Workload) (ws : List Workload) (rs : List Revision) (k : Revision) (rest : List IndexEntry)
    → v.enabled ≡ true
    → newest v.id rs ≡ some k
    → index_entries ws rs ≡ some rest
    → index_entries (v ∷ ws) rs ≡ some (entry_of v k ∷ rest)
unfolding index_entries
index_on v ws rs k rest on latest made = rw on (rw (latest, made) refl)

index_off :
    (v : Workload) (ws : List Workload) (rs : List Revision)
    → v.enabled ≡ false
    → index_entries (v ∷ ws) rs ≡ index_entries ws rs
unfolding index_entries
index_off v ws rs off = rw off refl

pub index_entries-total :
    (ws : List Workload) (rs : List Revision) (files : List (Text × Text))
    → All (Mirrored rs files) ws
    → (es : List IndexEntry) × (index_entries ws rs ≡ some es)
unfolding index_entries
index_entries-total [] rs files h = ([], refl)
index_entries-total (w ∷ ws) rs files ((r, latest, held), h) =
    let (es, e) = index_entries-total ws rs files h in
    elim (Bool-cases w.enabled) [
      | inl on ↦ (entry_of w r ∷ es, index_on w ws rs r es on latest e)
      | inr off ↦ (es, index_off w ws rs off ∙ e)
    ]

pub find_entry-index :
    (name : Text) (ws : List Workload) (rs : List Revision) (w : Workload) (r : Revision)
    (files : List (Text × Text)) (es : List IndexEntry)
    → All (Mirrored rs files) ws
    → find_name name ws ≡ some w
    → w.enabled ≡ true
    → newest w.id rs ≡ some r
    → index_entries ws rs ≡ some es
    → find_entry name es ≡ some (entry_of w r)
unfolding find_name
find_entry-index name [] rs w r files es h found on latest e = cc
find_entry-index name (v ∷ ws) rs w r files es ((k, newest_, held), h) found on latest e =
    let (rest, made) = index_entries-total ws rs files h in
    let this : v.enabled ≡ true → es ≡ entry_of v k ∷ rest =
      λ on_v. some-injective _ _ (sym e ∙ index_on v ws rs k rest on_v newest_ made) in
    elim (Bool-cases (text_eq v.name name)) [
      | inl t ↦
          let same : v ≡ w = some-injective _ _ (rw t at found) in
          let on_v : v.enabled ≡ true = ap (λ (x : Workload). x.enabled) same ∙ on in
          let same_k : some k ≡ some r =
            sym newest_ ∙ (ap (λ (x : Workload). newest x.id rs) same ∙ latest) in
          rw (this on_v) (rw t (ap₂ (λ x y. some (entry_of x y)) same (some-injective _ _ same_k)))
      | inr f ↦
          let later = find_entry-index name ws rs w r files rest h (rw f at found) on latest made in
          elim (Bool-cases v.enabled) [
            | inl on_v ↦ rw (this on_v) (rw f later)
            | inr off ↦
                let same_es : es ≡ rest =
                  some-injective _ _ (sym e ∙ (index_off v ws rs off ∙ made)) in
                rw same_es later
          ]
    ]
