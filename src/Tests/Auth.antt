-- ===== src/Tests/Auth.antt =====
-- A login and a logout, the failed logins of two addresses, and the group check.
use nixbox.Prelude.{
  List, Option, Text, [], arith, codes, false, if◌then◌else◌, none, refl, some, text_eq, true, ℕ,
  ◌+◌, ◌↔◌, ◌∷◌, ◌≡◌, ◌≤◌, ◌⊎◌,
}
use nixbox.Auth.Limiter.{Call, ask, failed, cleared, new_login_limiter, blocked, kept}
use nixbox.Auth.Limiter
use nixbox.Auth.Limiter.History.{blocked-history, young}
use nixbox.Auth.Limiter.Stored.{history}
use nixbox.Auth.Gate.{Account, authorize, authorized, HasGroup, authorize_iff}
use nixbox.Auth.Sessions.{Table, valid_session, create_session, delete_expired_sessions}
use nixbox.Auth.Redirect.{has_prefix, safe_next, browser_reads, IsSamePath, safe_next-IsSamePath}
use nixbox.Auth.Login.{
  accepted, bad_credentials, Env, Server, Route, login_submit, logout, elsewhere, Request, handled,
  dispatch, session_ttl, public_path, deny_unauthenticated, require_auth, handle_logout, run,
}
use nixbox.Auth.Login.Safety.{Granted, require_auth-Granted, require_auth-idle, require_auth-logout}

abbrev env : Env
env = record {
  auth_on = true;
  hash_token = λ t. t;
  authenticate = λ now u p. if text_eq p (codes "pw") then accepted else bad_credentials;
  authorize = λ now u. authorized;
  query_escape = λ t. t;
}

abbrev request : Route → Text → Option Text → Request
request route path cookie = record {
  route = route;
  path = path;
  uri = path;
  read_method = false;
  hx_request = false;
  wants_events = false;
  cookie = cookie;
  ip = codes "10.0.0.7";
  username = codes "ann";
  password = codes "pw";
  next = codes "/w/1";
}

abbrev empty_server : Server
empty_server = record { sessions = []; limiter = new_login_limiter 5 900 }

abbrev one_login : List (ℕ × Option Text × Request)
one_login = (5, some (codes "tok"), request login_submit (codes "/login") none) ∷ []

abbrev with_cookie : Request
with_cookie = request elsewhere (codes "/w/1") (some (codes "tok"))

abbrev log_out : Request
log_out = request logout (codes "/logout") (some (codes "tok"))

let_in :
    (require_auth env 6 with_cookie (run env empty_server one_login)).1
    ≡ handled (some (codes "ann"))
unfolding require_auth run new_login_limiter has_prefix valid_session dispatch blocked
    create_session delete_expired_sessions
let_in = refl

private_path : public_path (codes "/w/1") ≡ false
unfolding public_path has_prefix
private_path = refl

require_auth-Granted_example :
    (u : Text) × (cookie : Text) × (some (codes "ann") ≡ some u)
    × (with_cookie.cookie ≡ some cookie)
    × Granted env one_login (env.hash_token cookie) u
require_auth-Granted_example =
    require_auth-Granted env empty_server one_login 6 with_cookie (some (codes "ann")) refl refl
      private_path let_in

require_auth-idle_example :
    require_auth env (5 + session_ttl) with_cookie (run env empty_server one_login)
    ≡ (run env empty_server one_login, deny_unauthenticated env with_cookie)
require_auth-idle_example =
    require_auth-idle env empty_server one_login 5 (5 + session_ttl) with_cookie refl refl
      (omega arith, omega arith) (omega arith) private_path

require_auth-logout_example :
    let q = (handle_logout env log_out (run env empty_server one_login)).0 in
    require_auth env 7 with_cookie q ≡ (q, deny_unauthenticated env with_cookie)
require_auth-logout_example =
    require_auth-logout env (run env empty_server one_login) log_out with_cookie (codes "tok") 7
      refl refl refl private_path

abbrev home : Text
home = codes "10.0.0.7"

abbrev lab : Text
lab = codes "10.0.0.9"

abbrev calls : List Call
calls =
    failed 1 1 home
    ∷ ask 2 lab
    ∷ failed 3 4 lab
    ∷ cleared 5 lab
    ∷ failed 6 6 home
    ∷ failed 9 9 home
    ∷ []

blocked-history_example :
    ((blocked 12 home (Limiter.run (new_login_limiter 2 10) calls)).1 ≡ true)
    ↔ (2 ≤ young 10 12 (history home [] calls))
blocked-history_example = blocked-history home 2 10 12 calls (
  omega arith,
  omega arith,
  (
    omega arith,
    (
      omega arith,
      omega arith,
      (omega arith, (omega arith, omega arith, (omega arith, omega arith, omega arith))),
    ),
  ),
)

still_blocked : (blocked 12 home (Limiter.run (new_login_limiter 2 10) calls)).1 ≡ true
unfolding blocked Limiter.run new_login_limiter
still_blocked = refl

abbrev lookup_user : Text → Option Account
lookup_user name = some (record { uid = codes "1000"; key = name })

abbrev group_ids : Account → Option (List Text)
group_ids u = some (codes "7" ∷ codes "1" ∷ [])

abbrev lookup_group : Text → Option Text
lookup_group gid = if text_eq gid (codes "1") then some (codes "wheel") else none

abbrev admins : List Text
admins = codes "nixbox" ∷ codes "wheel" ∷ []

authorize_iff_example :
    (authorize admins lookup_user group_ids lookup_group (codes "ann") ≡ authorized) ↔ (
      (u : Account) × (lookup_user (codes "ann") ≡ some u)
      × ((u.uid ≡ codes "0")
          ⊎ ((ids : List Text) × (group_ids u ≡ some ids)
              × HasGroup admins lookup_user group_ids lookup_group ids)))
authorize_iff_example = authorize_iff admins lookup_user group_ids lookup_group (codes "ann")

ann_authorized : authorize admins lookup_user group_ids lookup_group (codes "ann") ≡ authorized
unfolding authorize
ann_authorized = refl

safe_next-IsSamePath_example : IsSamePath (browser_reads (safe_next (codes "/\t/evil.example")))
safe_next-IsSamePath_example = safe_next-IsSamePath (codes "/\t/evil.example")

abbrev rows : Table
rows =
    record { token_hash = codes "a"; username = codes "ann"; expires_at = 10 }
    ∷ record { token_hash = codes "b"; username = codes "bob"; expires_at = 90 }
    ∷ []
