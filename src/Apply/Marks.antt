-- ===== src/Apply/Marks.antt =====
-- The snapshot of internal/server/handlers_system.go and what its marks do to a row.
use mathlib.Core.Option.{some-injective}
use mathlib.Core.Path.{subst}
use nixbox.Prelude.{
  All, Bool, Bool-cases, List, Option, Option-cases, [], ap, arith, false, if◌then◌else◌, inl, inr,
  map, none, refl, some, sym, true, ℕ, ◌==◌, ◌∙◌, ◌∷◌, ◌≡◌, ◌⊎◌,
}
use nixbox.Store.Workloads.{
  Workload, Revision, Tables, find_id, newest, has_revision, update_id, mark_applied,
}
use nixbox.Store.Workloads.Rows.{find_id-update_other}
use nixbox.Apply.{snapshot_of, mark_all}

-- The mark that the loop leaves on a workload.
abbrev pub mark_of : ℕ → List (ℕ × ℕ) → Option ℕ
mark_of wid [] = none
mark_of wid ((id, rid) ∷ ms) =
    let rest = mark_of wid ms in
    elim rest [ none ↦ if wid == id then some rid else none | some r ↦ some r ]

abbrev pub marked : Option ℕ → Workload → Workload
marked none w = w
marked (some rid) w = record w { applied_revision_id = some rid }

-- The marks are of revisions that exist.
abbrev pub Exist : List Revision → List (ℕ × ℕ) → Type 0
Exist rs ms = All (λ (m : ℕ × ℕ). has_revision m.1 rs ≡ true) ms

find_id-id : (wid : ℕ) (ws : List Workload) (w : Workload) → find_id wid ws ≡ some w → w.id ≡ wid
unfolding find_id
find_id-id wid [] w e = cc
find_id-id wid (v ∷ ws) w e = ground (arith, find_id-id wid ws w)

marked_twice :
    (later : Option ℕ) (here : Bool) (rid : ℕ) (w : Workload)
    → marked later (if here then marked (some rid) w else w)
      ≡ marked (elim later [ none ↦ if here then some rid else none | some r ↦ some r ]) w
marked_twice none true rid w = refl
marked_twice none false rid w = refl
marked_twice (some r) true rid w = refl
marked_twice (some r) false rid w = refl

mark_applied_lem :
    (id rid wid : ℕ) (t : Tables) (w : Workload)
    → has_revision rid t.revisions ≡ true
    → find_id wid t.workloads ≡ some w
    → (u : Tables) × (mark_applied id rid t ≡ some u)
      × (u.revisions ≡ t.revisions)
      × (find_id wid u.workloads ≡ some (if wid == id then marked (some rid) w else w))
unfolding mark_applied
mark_applied_lem id rid wid t w exists e =
    let set : Workload → Workload = marked (some rid) in
    let own = find_id-id wid t.workloads w e in
    elim (Option-cases (find_id id t.workloads)) [
      | inl absent_ ↦
          let other : (wid == id) ≡ false = elim (Bool-cases (wid == id)) [
            | inl t ↦ let same : wid ≡ id = ground arith in absurd (cc)
            | inr f ↦ f
          ] in
          (t, rw (absent_, mark_applied) refl, refl, e ∙ rw other refl)
      | inr (v, found) ↦ (
        record t { workloads = map (update_id set id) t.workloads },
        rw (found, mark_applied) (rw exists refl),
        refl,
        find_id-update_other set id wid t.workloads (λ _. refl) ∙ rw e (rw own refl),
      )
    ]

-- All the marks are made, and a workload's row has its own.
pub mark_all_lem :
    (ms : List (ℕ × ℕ)) (wid : ℕ) (t : Tables) (w : Workload)
    → Exist t.revisions ms
    → find_id wid t.workloads ≡ some w
    → ((mark_all ms t).1 ≡ true)
      × ((mark_all ms t).0.revisions ≡ t.revisions)
      × (find_id wid (mark_all ms t).0.workloads ≡ some (marked (mark_of wid ms) w))
unfolding mark_all
mark_all_lem [] wid t w h e = (refl, refl, e)
mark_all_lem ((id, rid) ∷ ms) wid t w (h, hs) e =
    let (u, same, revs, e') = mark_applied_lem id rid wid t w h e in
    let w' = if wid == id then marked (some rid) w else w in
    let (ok, revs', e'') = mark_all_lem ms wid u w' (subst (λ rs. Exist rs ms) (sym revs) hs) e' in
    rw (same, mark_all)
      (ok, revs' ∙ revs, e'' ∙ ap some (marked_twice (mark_of wid ms) (wid == id) rid w))

-- The primary key of the table.
abbrev pub PrimaryKey : List Workload → Type 0
PrimaryKey [] = Unit
PrimaryKey (w ∷ ws) = All (λ (v : Workload). (v.id == w.id) ≡ false) ws × PrimaryKey ws

newest-has_revision :
    (wid : ℕ) (rs : List Revision) (r : Revision)
    → newest wid rs ≡ some r
    → has_revision r.id rs ≡ true
unfolding newest has_revision
newest-has_revision wid [] r e = cc
newest-has_revision wid (s ∷ rs) r e = elim (Option-cases (newest wid rs)) [
  | inl none_ ↦ ground arith
  | inr (k, found) ↦ ground (arith, newest-has_revision wid rs k found)
]

-- How a snapshot begins.
snapshot_cons :
    (w : Workload) (ws : List Workload) (rs : List Revision) (ms : List (ℕ × ℕ))
    → snapshot_of (w ∷ ws) rs ≡ some ms
    → ((w.enabled ≡ false) × (snapshot_of ws rs ≡ some ms))
      ⊎ ((r : Revision) × (rest : List (ℕ × ℕ)) × (newest w.id rs ≡ some r)
          × (snapshot_of ws rs ≡ some rest)
          × (ms ≡ (w.id, r.id) ∷ rest))
unfolding snapshot_of
snapshot_cons w ws rs ms e = elim (Bool-cases w.enabled) [
  | inr off ↦ inl (off, rw off at e)
  | inl on ↦ elim (Option-cases (newest w.id rs)) [
    | inl none_ ↦ absurd (ground arith)
    | inr (r, latest) ↦ elim (Option-cases (snapshot_of ws rs)) [
      | inl none_ ↦ absurd (ground arith)
      | inr (rest, kept) ↦ inr (r, rest, latest, kept, ground arith)
    ]
  ]
]

snapshot_nil : (rs : List Revision) (ms : List (ℕ × ℕ)) → snapshot_of [] rs ≡ some ms → ms ≡ []
unfolding snapshot_of
snapshot_nil rs ms e = sym (some-injective _ _ e)

pub snapshot_of-Exist :
    (ws : List Workload) (rs : List Revision) (ms : List (ℕ × ℕ))
    → snapshot_of ws rs ≡ some ms
    → Exist rs ms
snapshot_of-Exist [] rs ms e = rw (snapshot_nil rs ms e) tt
snapshot_of-Exist (w ∷ ws) rs ms e = elim (snapshot_cons w ws rs ms e) [
  | inl (off, kept) ↦ snapshot_of-Exist ws rs ms kept
  | inr (r, rest, latest, kept, same) ↦
      rw same (newest-has_revision w.id rs r latest, snapshot_of-Exist ws rs rest kept)
]

mark_of_other :
    (ws : List Workload) (rs : List Revision) (ms : List (ℕ × ℕ)) (wid : ℕ)
    → snapshot_of ws rs ≡ some ms
    → All (λ (v : Workload). (v.id == wid) ≡ false) ws
    → mark_of wid ms ≡ none
mark_of_other [] rs ms wid e h = rw (snapshot_nil rs ms e) refl
mark_of_other (w ∷ ws) rs ms wid e (h, hs) = elim (snapshot_cons w ws rs ms e) [
  | inl (off, kept) ↦ mark_of_other ws rs ms wid kept hs
  | inr (r, rest, latest, kept, same) ↦
      let later = mark_of_other ws rs rest wid kept hs in
      let other : (wid == w.id) ≡ false = ground arith in rw same (rw later (rw other refl))
]

pub mark_of-snapshot :
    (ws : List Workload) (rs : List Revision) (ms : List (ℕ × ℕ)) (wid : ℕ) (w : Workload)
    (r : Revision)
    → PrimaryKey ws
    → snapshot_of ws rs ≡ some ms
    → find_id wid ws ≡ some w
    → w.enabled ≡ true
    → newest wid rs ≡ some r
    → mark_of wid ms ≡ some r.id
unfolding find_id
mark_of-snapshot [] rs ms wid w r key e found on latest = cc
mark_of-snapshot (v ∷ ws) rs ms wid w r (k, key) e found on latest =
    elim (Bool-cases (v.id == wid)) [
      | inl t ↦
          let same_id : v.id ≡ wid = ground arith in
          let same_w : v ≡ w = some-injective _ _ (rw t at found) in
          elim (snapshot_cons v ws rs ms e) [
            | inl (off, kept) ↦ absurd (ground arith)
            | inr (r', rest, latest', kept, same) ↦
                let later = mark_of_other ws rs rest wid kept (rw same_id at k) in
                let here : (wid == v.id) ≡ true = ground arith in
                let same_r : r' ≡ r = some-injective _ _ (sym (rw same_id at latest') ∙ latest) in
                rw same (rw later (rw here (ap (λ (x : Revision). some x.id) same_r)))
          ]
      | inr f ↦
          let found' : find_id wid ws ≡ some w = rw f at found in
          elim (snapshot_cons v ws rs ms e) [
            | inl (off, kept) ↦ mark_of-snapshot ws rs ms wid w r key kept found' on latest
            | inr (r', rest, latest', kept, same) ↦
                rw same (rw (mark_of-snapshot ws rs rest wid w r key kept found' on latest) refl)
          ]
    ]
