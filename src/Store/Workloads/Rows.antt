-- ===== src/Store/Workloads/Rows.antt =====
-- What edits keep of a workload's row and of its latest revision.
use mathlib.Core.Option
use nixbox.Prelude.{
  Bool, Bool-cases, List, Option-cases, Text, [], arith, codes, false, inl, inr, map, refl, some,
  suc, true, ℕ, ◌<◌, ◌==◌, ◌||◌, ◌∙◌, ◌∷◌, ◌≡◌, ◌≢◌, ◌≤◌, ◌⊎◌,
}
use nixbox.Store.Workloads.{
  Workload, Revision, Tables, max_workload, max_revision, find_id, find_name, newest, new_revision,
  update_id, Edit, create, enable, rename, save, create_workload, save_revision, step, run,
}

-- A workload's row, up to what edits change.
pub find_id-update_other :
    (f : Workload → Workload) (id wid : ℕ) (ws : List Workload)
    → ((w : Workload) → (f w).id ≡ w.id)
    → find_id wid (map (update_id f id) ws)
      ≡ Option.map (λ (w : Workload). update_id f id w) (find_id wid ws)
unfolding find_id
find_id-update_other f id wid [] keep = refl
find_id-update_other f id wid (w ∷ ws) keep =
    let same : (update_id f id w).id ≡ w.id = ground (arith, keep w) in
    elim (Bool-cases (w.id == wid)) [
      | inl t ↦ rw (same, t) refl
      | inr g ↦ rw (same, g) (find_id-update_other f id wid ws keep)
    ]

find_id-bound :
    (wid : ℕ) (ws : List Workload) (found : Workload)
    → find_id wid ws ≡ some found
    → wid ≤ max_workload ws
unfolding find_id
find_id-bound wid [] found e = cc
find_id-bound wid (w ∷ ws) found e = ground (arith, find_id-bound wid ws found)

newest-bound :
    (wid : ℕ) (rs : List Revision) {r : Revision} → newest wid rs ≡ some r → r.id ≤ max_revision rs
unfolding newest
newest-bound wid [] e = cc
newest-bound wid (r ∷ rs) e = elim (Option-cases (newest wid rs)) [
  | inl none_ ↦ ground arith
  | inr (s, found) ↦ ground (arith, newest-bound wid rs found)
]

-- A saved revision is the latest of its workload, and of no other.
pub newest-new_revision :
    (wid : ℕ) (content ports note : Text) (rs : List Revision)
    → newest wid (new_revision wid content ports note rs ∷ rs)
      ≡ some (new_revision wid content ports note rs)
unfolding newest
newest-new_revision wid content ports note rs = elim (Option-cases (newest wid rs)) [
  | inl none_ ↦ ground arith
  | inr (s, found) ↦ ground (arith, newest-bound wid rs found)
]

pub newest-other :
    (wid id : ℕ) (content ports note : Text) (rs : List Revision)
    → wid ≢ id
    → newest wid (new_revision id content ports note rs ∷ rs) ≡ newest wid rs
unfolding newest
newest-other wid id content ports note rs ne = ground arith

-- What an edit may do to a workload's latest revision: nothing, or put a newer one in its place.
abbrev pub Moved : Bool → Revision → Revision → Type 0
Moved saved r l = ((saved ≡ false) × (l ≡ r)) ⊎ ((saved ≡ true) × (r.id < l.id))

abbrev pub saves_to : ℕ → Edit → Bool
saves_to wid (create name display_name typ content ports) = false
saves_to wid (enable id on) = false
saves_to wid (rename id name) = false
saves_to wid (save id content ports note) = id == wid

-- The row and the latest revision that a workload still has.
abbrev pub Has : ℕ → Tables → Revision → Type 0
Has wid t l =
    ((w : Workload) × (find_id wid t.workloads ≡ some w)) × (newest wid t.revisions ≡ some l)

update-Has :
    (f : Workload → Workload) (id wid : ℕ) (t : Tables) (l : Revision)
    → ((w : Workload) → (f w).id ≡ w.id)
    → Has wid t l
    → Has wid (record t { workloads = map (update_id f id) t.workloads }) l
update-Has f id wid t l keep ((w, e), latest) =
    ((update_id f id w, find_id-update_other f id wid t.workloads keep ∙ rw e refl), latest)

create-Has :
    (wid : ℕ) (t : Tables) (l : Revision) (name display_name typ content ports : Text)
    → Has wid t l
    → Has wid (step t (create name display_name typ content ports)) l
unfolding step create_workload
create-Has wid t l name display_name typ content ports ((w, e), latest) =
    elim (Option-cases (find_name name t.workloads)) [
      | inr (taken, same) ↦ rw (same, step, create_workload) ((w, e), latest)
      | inl free ↦
          let bound = find_id-bound wid t.workloads w e in
          let other : (suc (max_workload t.workloads) == wid) ≡ false = ground arith in
          let kept =
            newest-other wid (suc (max_workload t.workloads)) content ports (codes "created")
              t.revisions (λ same. omega arith) in
          rw (free, step, create_workload) ((w, rw other e), kept ∙ latest)
    ]

newest_of_saved :
    (wid id : ℕ) (content ports note : Text) (rs : List Revision) (l : Revision)
    → newest wid rs ≡ some l
    → (l' : Revision) × (newest wid (new_revision id content ports note rs ∷ rs) ≡ some l')
      × Moved (id == wid) l l'
newest_of_saved wid id content ports note rs l latest = elim (Bool-cases (id == wid)) [
  | inl t ↦
      let same : id ≡ wid = ground arith in
      let bound = newest-bound wid rs latest in
      (
        new_revision wid content ports note rs,
        rw same (newest-new_revision wid content ports note rs),
        inr (t, omega arith),
      )
  | inr f ↦
      let other : wid ≢ id = λ e. ground arith in
      (l, newest-other wid id content ports note rs other ∙ latest, inl (f, refl))
]

save-Has :
    (wid : ℕ) (t : Tables) (l : Revision) (id : ℕ) (content ports note : Text)
    → Has wid t l
    → (l' : Revision) × Has wid (step t (save id content ports note)) l' × Moved (id == wid) l l'
unfolding step save_revision
save-Has wid t l id content ports note ((w, e), latest) =
    elim (Option-cases (find_id id t.workloads)) [
      | inl none_ ↦
          let other : (id == wid) ≡ false = elim (Bool-cases (id == wid)) [
            | inl t ↦ let same : id ≡ wid = ground arith in absurd (cc)
            | inr f ↦ f
          ] in
          (l, rw (none_, step, save_revision) ((w, e), latest), inl (other, refl))
      | inr (u, found) ↦
          let (l', new, moved) = newest_of_saved wid id content ports note t.revisions l latest in
          (l', rw (found, step, save_revision) ((w, e), new), moved)
    ]

step-Has :
    (wid : ℕ) (t : Tables) (l : Revision) (e : Edit)
    → Has wid t l
    → (l' : Revision) × Has wid (step t e) l' × Moved (saves_to wid e) l l'
unfolding step
step-Has wid t l (create name display_name typ content ports) h =
    (l, create-Has wid t l name display_name typ content ports h, inl (refl, refl))
step-Has wid t l (enable id on) h =
    (l, update-Has (λ w. record w { enabled = on }) id wid t l (λ w. refl) h, inl (refl, refl))
step-Has wid t l (rename id name) h = (
  l,
  update-Has (λ w. record w { display_name = name }) id wid t l (λ w. refl) h,
  inl (refl, refl),
)
step-Has wid t l (save id content ports note) h = save-Has wid t l id content ports note h

abbrev pub saves : ℕ → List Edit → Bool
saves wid [] = false
saves wid (e ∷ es) = saves_to wid e || saves wid es

Moved-trans : (a b : Bool) (r l k : Revision) → Moved a r l → Moved b l k → Moved (a || b) r k
Moved-trans a b r l k (inl (e, same)) (inl (f, again)) = inl (ground arith, again ∙ same)
Moved-trans a b r l k (inl (e, same)) (inr (f, lt)) = inr (ground arith, ground arith)
Moved-trans a b r l k (inr (e, lt)) (inl (f, again)) = inr (ground arith, ground arith)
Moved-trans a b r l k (inr (e, lt)) (inr (f, lt')) = inr (ground arith, ground arith)

-- After any edits a workload is still there, and its latest revision is the same one or, if one of them
-- saved to it, a newer one.
pub run-Has :
    (wid : ℕ) (t : Tables) (l : Revision) (es : List Edit)
    → Has wid t l
    → (l' : Revision) × Has wid (run t es) l' × Moved (saves wid es) l l'
unfolding run
run-Has wid t l [] h = (l, h, inl (refl, refl))
run-Has wid t l (e ∷ es) h =
    let (m, has, moved) = step-Has wid t l e h in
    let (k, has', moved') = run-Has wid (step t e) m es has in
    (k, has', Moved-trans (saves_to wid e) (saves wid es) l m k moved moved')
