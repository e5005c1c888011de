-- ===== src/Auth/Login.antt =====
-- internal/server/handlers_auth.go: the session gate in front of every route, login and logout. The
-- clock stands still within one request. Faults of the database, logging, the failure delay and the
-- request context are not modelled.
pub mod Rows
pub mod Safety
use nixbox.Prelude.{
  Bool, List, Option, Text, [], codes, false, if◌then◌else◌, ltb, none, not, some, text_eq, true, ℕ,
  ◌++◌, ◌+◌, ◌-◌, ◌||◌, ◌∷◌,
}
use nixbox.Auth.Limiter.{LoginLimiter, blocked, fail, clear}
use nixbox.Auth.Gate.{Verdict, authorized, not_authorized, lookup_failed, groups_failed}
use nixbox.Auth.Sessions.{
  Session, Table, create_session, valid_session, touch_session, delete_session,
  delete_expired_sessions,
}
use nixbox.Auth.Redirect.{safe_next, has_prefix}

-- Authenticate: PAM accepts, rejects, or fails.
pub data Answer : Type 0 where
  accepted bad_credentials backend_failed : Answer

-- What lies outside this code: whether auth is configured, SHA-256, PAM and the account database at
-- a time, and url.QueryEscape.
pub record Env : Type 0 where
  pub auth_on : Bool
  pub hash_token : Text → Text
  pub authenticate : ℕ → Text → Text → Answer
  pub authorize : ℕ → Text → Verdict
  pub query_escape : Text → Text

pub record Server : Type 0 where
  pub sessions : Table
  pub limiter : LoginLimiter

-- The handlers behind the gate that this file has; the other routes are `elsewhere`.
pub data Route : Type 0 where
  login_page login_submit logout elsewhere : Route

pub record Request : Type 0 where
  pub route : Route
  pub path : Text
  pub uri : Text
  pub read_method : Bool
  pub hx_request : Bool
  pub wants_events : Bool
  pub cookie : Option Text
  pub ip : Text
  pub username : Text
  pub password : Text
  pub next : Text

-- `handled` runs a handler for the user; `see_other` is a redirect and may set the session cookie
-- (to a token, or to nothing).
pub data Response : Type 0 where
  handled : Option Text → Response
  see_other : Text → Response
  see_other_cookie : Text → Option Text → Response
  hx_redirect : Text → Response
  login_form : (status : ℕ) → Text → Response
  status : ℕ → Response

-- 7 days and 1 hour, in nanoseconds.
abbrev pub session_ttl : ℕ
session_ttl = 604_800_000_000_000

abbrev pub session_touch_after : ℕ
session_touch_after = 3_600_000_000_000

unfoldable pub public_path : Text → Bool
public_path path =
    text_eq path (codes "/login")
    || (text_eq path (codes "/lang") || has_prefix path (codes "/static/"))

abbrev pub is_empty : Text → Bool
is_empty [] = true
is_empty (c ∷ s) = false

module _ (env : Env) where
  unfoldable pub deny_unauthenticated : Request → Response
  deny_unauthenticated r =
      if r.hx_request
      then hx_redirect (codes "/login")
      else if r.wants_events
      then status 401
      else if r.read_method
      then see_other (codes "/login?next=" ++ env.query_escape r.uri)
      else see_other (codes "/login")

  -- The sliding expiry of a session that the gate has found.
  unfoldable pub slide : ℕ → Session → Server → Server
  slide now sess s =
      if ltb (sess.expires_at - now) (session_ttl - session_touch_after)
      then record s { sessions = touch_session sess.token_hash (now + session_ttl) s.sessions }
      else s

  unfoldable pub require_auth : ℕ → Request → Server → Server × Response
  unfolding slide public_path
  require_auth now r s =
      if not env.auth_on || public_path r.path then (s, handled none) else elim r.cookie [
        | none ↦ (s, deny_unauthenticated r)
        | some token ↦ elim (valid_session (env.hash_token token) now s.sessions) [
          | none ↦ (s, deny_unauthenticated r)
          | some sess ↦ (slide now sess s, handled (some sess.username))
        ]
      ]

  unfoldable pub logged_in : ℕ → Request → Server → Bool
  logged_in now r s = elim r.cookie [
    | none ↦ false
    | some token ↦ elim (valid_session (env.hash_token token) now s.sessions) [
      | none ↦ false
      | some sess ↦ true
    ]
  ]

  unfoldable pub handle_login_page : ℕ → Request → Server → Server × Response
  unfolding logged_in
  handle_login_page now r s =
      if not env.auth_on || logged_in now r s
      then (s, see_other (codes "/"))
      else (s, login_form 200 (safe_next r.next))

  unfoldable pub fail_login : ℕ → Request → Server → Server × Response
  fail_login now r s =
      (record s { limiter = fail now now r.ip s.limiter }, login_form 401 (safe_next r.next))

  -- The session of a login that is authenticated and authorized; `none` if no token could be minted.
  unfoldable pub open_session : ℕ → Option Text → Request → Server → Server × Response
  open_session now none r s = (s, status 500)
  open_session now (some token) r s =
      elim (create_session (env.hash_token token) r.username (now + session_ttl) s.sessions) [
        | none ↦ (s, status 500)
        | some t ↦ (
          record { sessions = delete_expired_sessions now t; limiter = clear r.ip s.limiter },
          see_other_cookie (safe_next r.next) (some token),
        )
      ]

  -- What Authorize and Authenticate answered, and what the login does about it.
  unfoldable pub on_verdict : Verdict → ℕ → Option Text → Request → Server → Server × Response
  unfolding open_session
  on_verdict authorized now token r s = open_session now token r s
  on_verdict not_authorized now token r s = (s, login_form 403 (safe_next r.next))
  on_verdict lookup_failed now token r s = (s, status 500)
  on_verdict groups_failed now token r s = (s, status 500)

  unfoldable pub on_answer : Answer → ℕ → Option Text → Request → Server → Server × Response
  unfolding on_verdict fail_login
  on_answer bad_credentials now token r s = fail_login now r s
  on_answer backend_failed now token r s = (s, status 500)
  on_answer accepted now token r s = on_verdict (env.authorize now r.username) now token r s

  -- The credentials of a login that is not throttled.
  unfoldable pub check_login : ℕ → Option Text → Request → Server → Server × Response
  unfolding on_answer
  check_login now token r s =
      if is_empty r.username || is_empty r.password
      then fail_login now r s
      else on_answer (env.authenticate now r.username r.password) now token r s

  unfoldable pub handle_login_submit : ℕ → Option Text → Request → Server → Server × Response
  unfolding check_login
  handle_login_submit now token r s =
      if not env.auth_on
      then (s, see_other (codes "/"))
      else let (limiter', full) = blocked now r.ip s.limiter in
        let s' = record s { limiter = limiter' } in
        if full then (s', login_form 429 (safe_next r.next)) else check_login now token r s'

  unfoldable pub handle_logout : Request → Server → Server × Response
  handle_logout r s = if not env.auth_on then (s, see_other (codes "/")) else elim r.cookie [
    | none ↦ (s, see_other_cookie (codes "/login") none)
    | some token ↦ (
      record s { sessions = delete_session (env.hash_token token) s.sessions },
      see_other_cookie (codes "/login") none,
    )
  ]

  -- A handler behind the gate.
  unfoldable pub dispatch :
      Route → ℕ → Option Text → Request → Option Text → Server → Server × Response
  unfolding handle_login_page handle_login_submit handle_logout
  dispatch login_page now token r user s = handle_login_page now r s
  dispatch login_submit now token r user s = handle_login_submit now token r s
  dispatch logout now token r user s = handle_logout r s
  dispatch elsewhere now token r user s = (s, handled user)

  abbrev pub continue : ℕ → Option Text → Request → Server × Response → Server × Response
  continue now token r (s, handled user) = dispatch r.route now token r user s
  continue now token r (s, see_other to) = (s, see_other to)
  continue now token r (s, see_other_cookie to c) = (s, see_other_cookie to c)
  continue now token r (s, hx_redirect to) = (s, hx_redirect to)
  continue now token r (s, login_form n next) = (s, login_form n next)
  continue now token r (s, status n) = (s, status n)

  -- One request, with its time and the random token that a login would get.
  unfoldable pub serve : ℕ → Option Text → Request → Server → Server × Response
  serve now token r s = continue now token r (require_auth now r s)

  unfoldable pub run : Server → List (ℕ × Option Text × Request) → Server
  unfolding serve
  run s [] = s
  run s ((now, token, r) ∷ es) = run (serve now token r s).0 es
