-- ===== src/Auth/Login/Rows.antt =====
-- The outcomes of requireAuth, internal/server/handlers_auth.go, and the rows of the sessions table.
use mathlib.Core.Path.{subst}
use mathlib.Core.Option.{some-injective}
use nixbox.Prelude.{
  All, Bool-cases, Option, Option-cases, Text, arith, false, inl, inr, ltb, none, not, refl, some,
  true, ℕ, ◌+◌, ◌-◌, ◌||◌, ◌≡◌, ◌≢◌, ◌⊎◌,
}
use nixbox.Auth.Limiter.{blocked}
use nixbox.Auth.Gate.{Verdict, authorized, not_authorized, lookup_failed, groups_failed}
use nixbox.Auth.Sessions.{
  Session, Table, has_hash, create_session, valid_session, All-touch_session, All-delete_session,
  All-delete_expired,
}
use nixbox.Auth.Login.{
  on_answer, on_verdict, is_empty, session_touch_after, logged_in, Answer, accepted,
  bad_credentials, backend_failed, Env, Server, Request, Route, login_page, login_submit, logout,
  elsewhere, Response, handled, session_ttl, public_path, deny_unauthenticated, slide, require_auth,
  open_session, check_login, handle_logout, dispatch, continue, serve,
}

-- The three ways through the gate.
abbrev pub Gated : Env → ℕ → Request → Server → Server × Response → Type 0
Gated env now r s p =
    (((env.auth_on ≡ false) ⊎ (public_path r.path ≡ true)) × (p ≡ (s, handled none)))
    ⊎ (p ≡ (s, deny_unauthenticated env r))
    ⊎ ((token : Text) × (sess : Session) × (r.cookie ≡ some token)
        × (valid_session (env.hash_token token) now s.sessions ≡ some sess)
        × (p ≡ (slide env now sess s, handled (some sess.username))))

pub require_auth-cases :
    (env : Env) (now : ℕ) (r : Request) (s : Server) → Gated env now r s (require_auth env now r s)
unfolding require_auth deny_unauthenticated
require_auth-cases env now r s = elim (Bool-cases (not env.auth_on || public_path r.path)) [
  | inl open_ ↦ inl (ground arith, rw open_)
  | inr gated ↦ inr (elim (Option-cases r.cookie) [
    | inl none_ ↦ inl (rw gated (rw (none_, require_auth)))
    | inr (token, e) ↦ elim (Option-cases (valid_session (env.hash_token token) now s.sessions)) [
      | inl none_ ↦ inl (rw gated (rw (e, require_auth) (rw (none_, require_auth))))
      | inr (sess, found) ↦
          inr (token, sess, e, found, rw gated (rw (e, require_auth) (rw (found, require_auth))))
    ]
  ])
]

pub deny-ne-handled :
    (env : Env) (r : Request) (user : Option Text) → deny_unauthenticated env r ≢ handled user
unfolding deny_unauthenticated
deny-ne-handled env r user = ground arith

continue-deny :
    (env : Env) (now : ℕ) (token : Option Text) (r : Request) (s : Server)
    → continue env now token r (s, deny_unauthenticated env r) ≡ (s, deny_unauthenticated env r)
unfolding deny_unauthenticated
continue-deny env now token r s = ground arith

-- What touching keeps and the login of the request establishes holds of all rows after it.
module _ {κ} (env : Env) (now : ℕ) (token : Option Text) (r : Request) (P : Session → Type κ)
    (touched : (s : Session) → P s → P (record s { expires_at = now + session_ttl }))
    (created : (c : Text)
      → token ≡ some c
      → r.route ≡ login_submit
      → env.authenticate now r.username r.password ≡ accepted
      → env.authorize now r.username ≡ authorized
      → P (record {
        token_hash = env.hash_token c;
        username = r.username;
        expires_at = now + session_ttl;
      })) where
  slide-All :
      (sess : Session) (s : Server) → All P s.sessions → All P (slide env now sess s).sessions
  unfolding slide
  slide-All sess s ps =
      elim (Bool-cases (ltb (sess.expires_at - now) (session_ttl - session_touch_after))) [
        | inl old ↦
            rw old (All-touch_session P sess.token_hash (now + session_ttl) s.sessions touched ps)
        | inr young ↦ rw young ps
      ]

  create_session-All :
      (h u : Text) (e : ℕ) (t : Table) {t' : Table}
      → P (record { token_hash = h; username = u; expires_at = e })
      → All P t
      → create_session h u e t ≡ some t'
      → All P t'
  unfolding create_session
  create_session-All h u e t p ps same = elim (Bool-cases (has_hash h t)) [
    | inl taken ↦ cc (rw taken at same)
    | inr new ↦ subst (All P) (some-injective _ _ (rw new at same)) (p, ps)
  ]

  open_session-All :
      (minted : Option Text) (s : Server)
      → token ≡ minted
      → r.route ≡ login_submit
      → env.authenticate now r.username r.password ≡ accepted
      → env.authorize now r.username ≡ authorized
      → All P s.sessions
      → All P (open_session env now minted r s).0.sessions
  unfolding open_session
  open_session-All none s same submit ok allowed ps = ps
  open_session-All (some c) s same submit ok allowed ps =
      let h = env.hash_token c in
      let made = create_session h r.username (now + session_ttl) s.sessions in
      elim (Option-cases made) [
        | inl taken ↦ rw (taken, open_session) ps
        | inr (t, e) ↦
            rw (e, open_session)
              (All-delete_expired P now t (
                create_session-All h r.username (now + session_ttl) s.sessions
                  (created c same submit ok allowed) ps e))
      ]

  on_verdict-All :
      (v : Verdict) (s : Server)
      → r.route ≡ login_submit
      → env.authenticate now r.username r.password ≡ accepted
      → env.authorize now r.username ≡ v
      → All P s.sessions
      → All P (on_verdict env v now token r s).0.sessions
  unfolding on_verdict
  on_verdict-All authorized s submit ok e ps = open_session-All token s refl submit ok e ps
  on_verdict-All not_authorized s submit ok e ps = ps
  on_verdict-All lookup_failed s submit ok e ps = ps
  on_verdict-All groups_failed s submit ok e ps = ps

  on_answer-All :
      (a : Answer) (s : Server)
      → r.route ≡ login_submit
      → env.authenticate now r.username r.password ≡ a
      → All P s.sessions
      → All P (on_answer env a now token r s).0.sessions
  unfolding on_answer
  on_answer-All accepted s submit e ps =
      on_verdict-All (env.authorize now r.username) s submit e refl ps
  on_answer-All bad_credentials s submit e ps = ps
  on_answer-All backend_failed s submit e ps = ps

  check_login-All :
      (s : Server)
      → r.route ≡ login_submit
      → All P s.sessions
      → All P (check_login env now token r s).0.sessions
  unfolding check_login
  check_login-All s submit ps = elim (Bool-cases (is_empty r.username || is_empty r.password)) [
    | inl empty_ ↦ rw empty_ ps
    | inr given ↦
        rw given (on_answer-All (env.authenticate now r.username r.password) s submit refl ps)
  ]

  dispatch-All :
      (route : Route) (user : Option Text) (s : Server)
      → r.route ≡ route
      → All P s.sessions
      → All P (dispatch env route now token r user s).0.sessions
  unfolding dispatch
  dispatch-All login_page user s at_ ps =
      elim (Bool-cases (not env.auth_on || logged_in env now r s)) [
        | inl t ↦ rw t ps
        | inr f ↦ rw f ps
      ]
  dispatch-All login_submit user s at_ ps = elim (Bool-cases env.auth_on) [
    | inl t ↦ rw t (elim (Bool-cases (blocked now r.ip s.limiter).1) [
      | inl full ↦ rw full ps
      | inr room ↦
          rw room (check_login-All (record s { limiter = (blocked now r.ip s.limiter).0 }) at_ ps)
    ])
    | inr f ↦ rw f ps
  ]
  dispatch-All logout user s at_ ps = elim (Bool-cases env.auth_on) [
    | inl t ↦ rw t (elim (Option-cases r.cookie) [
      | inl none_ ↦ rw (none_, handle_logout) ps
      | inr (c, e) ↦ rw (e, handle_logout) (All-delete_session P (env.hash_token c) s.sessions ps)
    ])
    | inr f ↦ rw f ps
  ]
  dispatch-All elsewhere user s at_ ps = ps

  pub serve-All : (s : Server) → All P s.sessions → All P (serve env now token r s).0.sessions
  unfolding serve
  serve-All s ps = elim (require_auth-cases env now r s) [
    | inl (why, e) ↦ rw e (dispatch-All r.route none s refl ps)
    | inr (inl e) ↦ rw (e, continue-deny env now token r s) ps
    | inr (inr (c, sess, k, found, e)) ↦ rw e (
        dispatch-All r.route (some sess.username) (slide env now sess s) refl (slide-All sess s ps))
  ]
