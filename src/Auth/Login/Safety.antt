-- ===== src/Auth/Login/Safety.antt =====
-- The gate and the logout of internal/server/handlers_auth.go over sequences of requests.
use mathlib.Core.Path.{subst}
use mathlib.Core.Option.{some-injective}
use mathlib.Core.List.{Memᴰ}
use nixbox.Prelude.{
  All, List, Option, Text, [], all, ap, arith, false, inl, inr, none, refl, some, sym, true, ℕ, ◌+◌,
  ◌∙◌, ◌∷◌, ◌≡◌, ◌≤◌,
}
use nixbox.Auth.Login.Rows.{require_auth-cases, serve-All, deny-ne-handled}
use nixbox.Auth.Gate.{authorized}
use nixbox.Auth.Sessions.{
  Session, Table, valid_session, delete_session, valid_session_sound, valid_session-delete,
}
use nixbox.Auth.Login.{
  accepted, Env, Server, Request, login_submit, handled, session_ttl, public_path,
  deny_unauthenticated, require_auth, handle_logout, serve, run,
}

-- The row comes from one of the requests: a login that sent the name of the row and a password that was
-- accepted for it, at a time when the name was authorized, and that was given the token of the row.
abbrev pub Granted : Env → List (ℕ × Option Text × Request) → Text → Text → Type 0
Granted env es hash user =
    (t : ℕ) × (token : Text) × (q : Request) × Memᴰ (t, some token, q) es
    × (q.route ≡ login_submit)
    × (q.username ≡ user)
    × (env.authenticate t q.username q.password ≡ accepted)
    × (env.authorize t q.username ≡ authorized)
    × (env.hash_token token ≡ hash)

run-Granted :
    (env : Env) (all es : List (ℕ × Option Text × Request)) (s : Server)
    → ((e : ℕ × Option Text × Request) → Memᴰ e es → Memᴰ e all)
    → All (λ (x : Session). Granted env all x.token_hash x.username) s.sessions
    → All (λ (x : Session). Granted env all x.token_hash x.username) (run env s es).sessions
unfolding run
run-Granted env all [] s among ps = ps
run-Granted env all ((now, token, r) ∷ es) s among ps =
    run-Granted env all es (serve env now token r s).0 (λ e m. among e (Memᴰ.tail m))
      (serve-All env now token r (λ (x : Session). Granted env all x.token_hash x.username)
        (λ _ g. g)
        (λ c minted submit ok allowed. (
          now,
          c,
          r,
          among (now, some c, r) (Memᴰ.head (ap (λ k. (now, k, r)) (sym minted))),
          submit,
          refl,
          ok,
          allowed,
          refl,
        ))
        s ps)

-- With auth on, and starting without sessions: if a request for a path that is not public reaches the
-- handlers behind the gate as some user, it carries a cookie, and one of the requests before was a login
-- whose user name is that user, whose password was accepted for it, at a time when the user was
-- authorized, and which was given a token with the hash of the cookie.
pub require_auth-Granted :
    (env : Env) (s : Server) (es : List (ℕ × Option Text × Request)) (now : ℕ) (r : Request)
    (user : Option Text)
    → env.auth_on ≡ true
    → s.sessions ≡ []
    → public_path r.path ≡ false
    → (require_auth env now r (run env s es)).1 ≡ handled user
    → (u : Text) × (cookie : Text) × (user ≡ some u)
      × (r.cookie ≡ some cookie)
      × Granted env es (env.hash_token cookie) u
require_auth-Granted env s es now r user on fresh private e =
    let q = run env s es in
    elim (require_auth-cases env now r q) [
      | inl (inl off, same) ↦ absurd (cc)
      | inl (inr public, same) ↦ absurd (cc)
      | inr (inl same) ↦ absurd (deny-ne-handled env r user (sym (ap (λ p. p.1) same) ∙ e))
      | inr (inr (c, sess, k, found, same)) ↦
          let (granted, hash, live) =
            valid_session_sound (λ (x : Session). Granted env es x.token_hash x.username)
              (env.hash_token c) now q.sessions (run-Granted env es es s (λ _ m. m) (rw fresh tt))
              found in
          let who : handled (some sess.username) ≡ handled user = sym (ap (λ p. p.1) same) ∙ e in
          (sess.username, c, cc, k, subst (λ h. Granted env es h sess.username) hash granted)
    ]

-- The times of the requests never go back; the last one is at most `stop`.
abbrev pub InOrder : ℕ → List (ℕ × Option Text × Request) → ℕ → Type 0
InOrder from [] stop = from ≤ stop
InOrder from ((now, token, r) ∷ es) stop = (from ≤ now) × InOrder now es stop

abbrev Within : ℕ → Session → Type 0
Within now s = s.expires_at ≤ now + session_ttl

Within-mono : (a b : ℕ) (t : Table) → a ≤ b → All (Within a) t → All (Within b) t
Within-mono a b [] le ps = tt
Within-mono a b (s ∷ t) le (p, ps) = (omega arith, Within-mono a b t le ps)

run-Within :
    (env : Env) (from stop : ℕ) (s : Server) (es : List (ℕ × Option Text × Request))
    → InOrder from es stop
    → All (Within from) s.sessions
    → All (Within stop) (run env s es).sessions
unfolding run
run-Within env from stop s [] o ps = Within-mono from stop s.sessions o ps
run-Within env from stop s ((now, token, r) ∷ es) (le, o) ps =
    run-Within env now stop (serve env now token r s).0 es o (
      serve-All env now token r (Within now) (λ _ _. omega arith)
        (λ c minted submit ok allowed. omega arith) s (Within-mono from now s.sessions le ps))

-- With auth on, and starting without sessions: a request for a path that is not public is turned away
-- if seven days or more have passed since the last request, whatever cookie it carries.
pub require_auth-idle :
    (env : Env) (s : Server) (es : List (ℕ × Option Text × Request)) (last now : ℕ) (r : Request)
    → env.auth_on ≡ true
    → s.sessions ≡ []
    → InOrder 0 es last
    → last + session_ttl ≤ now
    → public_path r.path ≡ false
    → require_auth env now r (run env s es) ≡ (run env s es, deny_unauthenticated env r)
require_auth-idle env s es last now r on fresh o idle private =
    let q = run env s es in
    elim (require_auth-cases env now r q) [
      | inl (inl off, same) ↦ absurd (cc)
      | inl (inr public, same) ↦ absurd (cc)
      | inr (inl same) ↦ same
      | inr (inr (c, sess, k, found, same)) ↦
          let (within, hash, live) =
            valid_session_sound (Within last) (env.hash_token c) now q.sessions
              (run-Within env 0 last s es o (rw fresh tt)) found in
          absurd (omega arith)
    ]

sessions-handle_logout :
    (env : Env) (s : Server) (out : Request) (token : Text)
    → env.auth_on ≡ true
    → out.cookie ≡ some token
    → (handle_logout env out s).0.sessions ≡ delete_session (env.hash_token token) s.sessions
unfolding handle_logout
sessions-handle_logout env s out token on had = ground arith

none_not_some : {sess : Session} → ¬ (none ≡ some sess)
none_not_some e = cc

-- With auth on: after a logout, the same cookie is turned away from every path that is not public, at
-- any time.
pub require_auth-logout :
    (env : Env) (s : Server) (out r : Request) (token : Text) (now : ℕ)
    → env.auth_on ≡ true
    → out.cookie ≡ some token
    → r.cookie ≡ some token
    → public_path r.path ≡ false
    → let q = (handle_logout env out s).0 in
      require_auth env now r q ≡ (q, deny_unauthenticated env r)
require_auth-logout env s out r token now on had has private =
    let q = (handle_logout env out s).0 in
    elim (require_auth-cases env now r q) [
      | inl (inl off, same) ↦ absurd (cc)
      | inl (inr public, same) ↦ absurd (cc)
      | inr (inl same) ↦ same
      | inr (inr (c, sess, k, found, same)) ↦
          let c_token : token ≡ c = some-injective _ _ (sym has ∙ k) in
          let gone = valid_session-delete (env.hash_token token) now s.sessions in
          let still =
            subst (λ t. valid_session (env.hash_token c) now t ≡ some sess)
              (sessions-handle_logout env s out token on had) found in
          absurd (none_not_some (rw (← c_token, gone) at still))
    ]
