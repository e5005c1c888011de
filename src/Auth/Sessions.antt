-- ===== src/Auth/Sessions.antt =====
-- internal/store/sessions.go: the sessions table. token_hash is its primary key. Faults of the
-- database itself are not modelled.
use mathlib.Core.Option.{some-injective}
use nixbox.Prelude.{
  All, Bool, Bool-cases, List, Option, Text, [], and_iff, arith, false, if◌then◌else◌, inl, inr,
  leb, ltb, ltb_iff, none, refl, some, text_eq, text_eq_sound, ℕ, ◌&&◌, ◌<◌, ◌||◌, ◌∷◌, ◌≡◌, ◌≤◌,
}

pub record Session : Type 0 where
  pub token_hash : Text
  pub username : Text
  pub expires_at : ℕ

abbrev pub Table : Type 0
Table = List Session

unfoldable pub has_hash : Text → Table → Bool
has_hash h [] = false
has_hash h (s ∷ t) = text_eq s.token_hash h || has_hash h t

-- The INSERT fails on a token_hash that the table has (`none`).
unfoldable pub create_session : Text → Text → ℕ → Table → Option Table
unfolding has_hash
create_session h user expires_at t =
    if has_hash h t
    then none
    else some (record { token_hash = h; username = user; expires_at = expires_at } ∷ t)

-- WHERE token_hash = ? AND expires_at > ?; `none` is ErrNotFound.
unfoldable pub valid_session : Text → ℕ → Table → Option Session
valid_session h now [] = none
valid_session h now (s ∷ t) =
    let rest = valid_session h now t in
    if text_eq s.token_hash h && ltb now s.expires_at then some s else rest

unfoldable pub touch_session : Text → ℕ → Table → Table
touch_session h expires_at [] = []
touch_session h expires_at (s ∷ t) =
    (if text_eq s.token_hash h then record s { expires_at = expires_at } else s)
    ∷ touch_session h expires_at t

unfoldable pub delete_session : Text → Table → Table
delete_session h [] = []
delete_session h (s ∷ t) =
    let rest = delete_session h t in if text_eq s.token_hash h then rest else s ∷ rest

-- WHERE expires_at <= ?
unfoldable pub delete_expired_sessions : ℕ → Table → Table
delete_expired_sessions now [] = []
delete_expired_sessions now (s ∷ t) =
    let rest = delete_expired_sessions now t in if leb s.expires_at now then rest else s ∷ rest

-- A found session is a row of the table, has the hash and is not expired.
pub valid_session_sound {κ} :
    (P : Session → Type κ) (h : Text) (now : ℕ) (t : Table) {s : Session}
    → All P t
    → valid_session h now t ≡ some s
    → P s × (s.token_hash ≡ h) × (now < s.expires_at)
unfolding valid_session
valid_session_sound P h now [] ps e = cc
valid_session_sound P h now (r ∷ t) {s} (p, ps) e =
    elim (Bool-cases (text_eq r.token_hash h && ltb now r.expires_at)) [
      | inl hit ↦
          let same : r ≡ s = some-injective _ _ (rw hit at e) in
          let (hash, live) = (and_iff _ _).0 hit in
          rw (← same) (p, text_eq_sound _ _ hash, (ltb_iff _ _).0 live)
      | inr miss ↦ valid_session_sound P h now t ps (rw miss at e)
    ]

-- Sweeping expired rows hides no session that is still valid, at any later time either.
pub valid_session-delete_expired :
    (h : Text) (now later : ℕ) (t : Table)
    → now ≤ later
    → valid_session h later (delete_expired_sessions now t) ≡ valid_session h later t
unfolding valid_session delete_expired_sessions
valid_session-delete_expired h now later [] le = refl
valid_session-delete_expired h now later (s ∷ t) le =
    ground (arith, valid_session-delete_expired h now later t le)

-- A deleted session is gone, whatever the time.
pub valid_session-delete :
    (h : Text) (now : ℕ) (t : Table) → valid_session h now (delete_session h t) ≡ none
unfolding valid_session delete_session
valid_session-delete h now [] = refl
valid_session-delete h now (s ∷ t) = ground (arith, valid_session-delete h now t)

module _ {κ} (P : Session → Type κ) where
  pub All-touch_session :
      (h : Text) (e : ℕ) (t : Table)
      → ((s : Session) → P s → P (record s { expires_at = e }))
      → All P t
      → All P (touch_session h e t)
  unfolding touch_session
  All-touch_session h e [] keep ps = tt
  All-touch_session h e (s ∷ t) keep (p, ps) = (
    elim (Bool-cases (text_eq s.token_hash h)) [
      | inl hit ↦ rw hit (keep s p)
      | inr miss ↦ rw miss p
    ],
    All-touch_session h e t keep ps,
  )

  pub All-delete_session : (h : Text) (t : Table) → All P t → All P (delete_session h t)
  unfolding delete_session
  All-delete_session h [] ps = tt
  All-delete_session h (s ∷ t) (p, ps) = elim (Bool-cases (text_eq s.token_hash h)) [
    | inl hit ↦ rw hit (All-delete_session h t ps)
    | inr miss ↦ rw miss (p, All-delete_session h t ps)
  ]

  pub All-delete_expired : (now : ℕ) (t : Table) → All P t → All P (delete_expired_sessions now t)
  unfolding delete_expired_sessions
  All-delete_expired now [] ps = tt
  All-delete_expired now (s ∷ t) (p, ps) = elim (Bool-cases (leb s.expires_at now)) [
    | inl old ↦ rw old (All-delete_expired now t ps)
    | inr live ↦ rw live (p, All-delete_expired now t ps)
  ]
