-- ===== src/Auth/Limiter.antt =====
-- internal/server/loginlimit.go: recent login failures per client IP. A time is a number of
-- nanoseconds; `t.After(now.Add(-window))` is written `now < t + window`.
pub mod Stored
pub mod History
use nixbox.Prelude.{
  Bool, List, Option, Text, [], if◌then◌else◌, leb, length, ltb, none, some, text_eq, ℕ, ◌++◌, ◌+◌,
  ◌∷◌,
}

-- `none` is an absent key of the map.
pub record LoginLimiter : Type 0 where
  pub max : ℕ
  pub window : ℕ
  pub fails : Text → Option (List ℕ)

abbrev pub get_fails : Option (List ℕ) → List ℕ
get_fails none = []
get_fails (some ts) = ts

-- The loop of prune.
unfoldable pub kept : (window now : ℕ) → List ℕ → List ℕ
kept window now [] = []
kept window now (t ∷ ts) =
    let rest = kept window now ts in if ltb now (t + window) then t ∷ rest else rest

abbrev pub set_fails : Text → Option (List ℕ) → LoginLimiter → LoginLimiter
set_fails ip v l = record l { fails = λ k. if text_eq k ip then v else l.fails k }

abbrev pub entry : List ℕ → Option (List ℕ)
entry [] = none
entry (t ∷ ts) = some (t ∷ ts)

-- prune(ip) at `now`, with the list that it returns.
unfoldable pub prune : ℕ → Text → LoginLimiter → LoginLimiter × List ℕ
unfolding kept
prune now ip l =
    let ts = kept l.window now (get_fails (l.fails ip)) in (set_fails ip (entry ts) l, ts)

unfoldable pub blocked : ℕ → Text → LoginLimiter → LoginLimiter × Bool
unfolding prune
blocked now ip l = let (l', ts) = prune now ip l in (l', leb l.max (length ts))

-- fail(ip), which reads the clock twice: in prune, and for the new failure.
unfoldable pub fail : (cut now : ℕ) → Text → LoginLimiter → LoginLimiter
unfolding prune
fail cut now ip l = let (l', ts) = prune cut ip l in set_fails ip (some (ts ++ now ∷ [])) l'

unfoldable pub clear : Text → LoginLimiter → LoginLimiter
clear ip l = set_fails ip none l

unfoldable pub new_login_limiter : ℕ → ℕ → LoginLimiter
new_login_limiter max window = record { max = max; window = window; fails = λ _. none }

-- A call with its clock readings.
pub data Call : Type 0 where
  ask : (now : ℕ) → Text → Call
  failed : (cut now : ℕ) → Text → Call
  cleared : (now : ℕ) → Text → Call

unfoldable pub step : LoginLimiter → Call → LoginLimiter
unfolding blocked fail clear
step l (ask now ip) = (blocked now ip l).0
step l (failed cut now ip) = fail cut now ip l
step l (cleared now ip) = clear ip l

unfoldable pub run : LoginLimiter → List Call → LoginLimiter
unfolding step
run l [] = l
run l (c ∷ cs) = run (step l c) cs
