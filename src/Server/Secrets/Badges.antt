-- ===== src/Server/Secrets/Badges.antt =====
-- What the badge of a secret says after the marks of startApply in
-- internal/server/handlers_system.go and after an edit.
use nixbox.Server.Secrets.{Secret}
use mathlib.Core.Option.{some-injective}
use mathlib.Core.Path.{subst}
use nixbox.Prelude.{
  All, Bool, Bool-cases, List, Option, [], ap, arith, codes, false, if◌then◌else◌, inl, inr, map,
  none, refl, some, true, ℕ, ◌<◌, ◌==◌, ◌∙◌, ◌∷◌, ◌≡◌,
}
use nixbox.Store.Secrets.{
  is_applied, secret_status, touch_secret, on_id, has_mount, secret_by_id, mark_secret_applied,
  Secret,
}
use nixbox.Server.Secrets.Requests.{mark_secrets}
use nixbox.Server.Secrets.Stamps.{
  apply_edits, AtMost, apply_edits-IsStamped, IsBefore, IsStamped, Edit,
}

secret_by_id-id : (id : ℕ) (ss : List Secret) (s : Secret) → secret_by_id id ss ≡ some s → s.id ≡ id
unfolding secret_by_id
secret_by_id-id id [] s e = cc
secret_by_id-id id (r ∷ ss) s e = ground (arith, secret_by_id-id id ss s)

secret_by_id-on_id :
    (f : Secret → Secret) (j id : ℕ) (ss : List Secret) (s : Secret)
    → ((r : Secret) → (f r).id ≡ r.id)
    → secret_by_id id ss ≡ some s
    → secret_by_id id (map (on_id f j) ss) ≡ some (on_id f j s)
unfolding secret_by_id
secret_by_id-on_id f j id [] s keep e = cc
secret_by_id-on_id f j id (r ∷ ss) s keep e =
    let same : (on_id f j r).id ≡ r.id = ground (arith, keep r) in
    elim (Bool-cases (r.id == id)) [
      | inl t ↦ rw (same, t) (ap (λ q. some (on_id f j q)) (some-injective _ _ (rw t at e)))
      | inr n ↦ rw (same, n) (secret_by_id-on_id f j id ss s keep (rw n at e))
    ]

abbrev marked : ℕ → Bool → Secret → Secret
marked t true s = record s { applied_at = some t }
marked t false s = s

marked_twice :
    (t : ℕ) (later : Bool) (s : Secret) → marked t later (marked t true s) ≡ marked t true s
marked_twice t true s = refl
marked_twice t false s = refl

secret_by_id-mark_secrets :
    (t id : ℕ) (ids : List ℕ) (ss : List Secret) (s : Secret)
    → secret_by_id id ss ≡ some s
    → secret_by_id id (mark_secrets t ids ss) ≡ some (marked t (has_mount id ids) s)
unfolding mark_secrets mark_secret_applied has_mount
secret_by_id-mark_secrets t id [] ss s e = e
secret_by_id-mark_secrets t id (i ∷ ids) ss s e =
    let own = secret_by_id-id id ss s e in
    let next = secret_by_id-on_id (λ r. record r { applied_at = some t }) i id ss s (λ r. refl) e in
    let rest = secret_by_id-mark_secrets t id ids (mark_secret_applied t i ss) _ next in
    elim (Bool-cases (i == id)) [
      | inl y ↦
          let here : (s.id == i) ≡ true = ground arith in
          rest ∙ rw (y, here) (ap some (marked_twice t (has_mount id ids) s))
      | inr n ↦ let apart : (s.id == i) ≡ false = ground arith in rest ∙ rw (n, apart) refl
    ]

secret_by_id-All {κ} :
    (P : Secret → Type κ) (id : ℕ) (ss : List Secret) (s : Secret)
    → secret_by_id id ss ≡ some s
    → All P ss
    → P s
unfolding secret_by_id
secret_by_id-All P id [] s e h = cc
secret_by_id-All P id (r ∷ ss) s e (h, hs) = elim (Bool-cases (r.id == id)) [
  | inl t ↦ let same : r ≡ s = some-injective _ _ (rw t at e) in subst P same h
  | inr n ↦ secret_by_id-All P id ss s (rw n at e) hs
]

marked-status :
    (t : ℕ) (in_snapshot : Bool) (s : Secret)
    → IsStamped t s
    → secret_status (marked t in_snapshot s)
      ≡ (if in_snapshot then codes "applied" else secret_status s)
unfolding secret_status is_applied
marked-status t true s h = ground arith
marked-status t false s h = refl

is_applied_late : (t u : ℕ) (a : Option ℕ) → AtMost t a → t < u → is_applied a u ≡ false
unfolding is_applied
is_applied_late t u none h lt = refl
is_applied_late t u (some a) h lt = ground arith

touched-status :
    (t u : ℕ) (in_snapshot : Bool) (s : Secret)
    → IsStamped t s
    → t < u
    → secret_status (record (marked t in_snapshot s) { updated_at = u }) ≡ codes "pending"
unfolding secret_status is_applied
touched-status t u true s h lt =
    rw (is_applied_late t u (some t) (omega arith) lt, secret_status) refl
touched-status t u false s h lt = rw (is_applied_late t u s.applied_at h.1 lt, secret_status) refl

-- Secrets whose stamps are not later than t, after any calls of the store at times up to t: if a job
-- that took its snapshot at any moment before ends well at t, then every secret of the snapshot that is
-- still there shows `applied`, also one that was edited after the snapshot; every other one shows
-- what it showed. A touch at a later time shows as `pending`.
pub mark_secrets-status :
    (t u : ℕ) (ss : List Secret) (es : List Edit) (ids : List ℕ) (id : ℕ) (s : Secret)
    → All (IsStamped t) ss
    → All (IsBefore t) es
    → secret_by_id id (apply_edits ss es) ≡ some s
    → t < u
    → (m : Secret) × (secret_by_id id (mark_secrets t ids (apply_edits ss es)) ≡ some m)
      × (secret_status m ≡ (if has_mount id ids then codes "applied" else secret_status s))
      × ((k : Secret) × (secret_by_id id
              (touch_secret u id (mark_secrets t ids (apply_edits ss es)))
            ≡ some k)
          × (secret_status k ≡ codes "pending"))
unfolding touch_secret
mark_secrets-status t u ss es ids id s h before e lt =
    let stamped =
      secret_by_id-All (IsStamped t) id (apply_edits ss es) s e
        (apply_edits-IsStamped t ss es before h) in
    let own = secret_by_id-id id (apply_edits ss es) s e in
    let found = secret_by_id-mark_secrets t id ids (apply_edits ss es) s e in
    let m = marked t (has_mount id ids) s in
    let self : (m.id == id) ≡ true = ground arith in
    (
      m,
      found,
      marked-status t (has_mount id ids) s stamped,
      (
        record m { updated_at = u },
        secret_by_id-on_id (λ r. record r { updated_at = u }) id id
              (mark_secrets t ids (apply_edits ss es)) m (λ r. refl) found
            ∙ rw self refl,
        touched-status t u (has_mount id ids) s stamped lt,
      ),
    )
