-- ===== src/Netconf/RateLimit/Steps.antt =====
-- Sequences of calls on the rate limiter of pkg/netconf/rate_limit.go. Each map has a lock of its
-- own, so on one map the calls of all connections and of the cleanup loop happen one at a time.
use arca_router.Prelude.{ℕ, List, [], ◌∷◌, Option, none, some, String, true}
use arca_router.Datastore.Table.{HasUniqueKeys, replace-HasUniqueKeys, delete_if-HasUniqueKeys}
use arca_router.Netconf.RateLimit.{RateLimiter, name_of, record_failure, record_success, cleanup}
use arca_router.Netconf.RateLimit.Trackers.{clean_trackers-HasUniqueKeys}

-- A failure has the readings of the clock for the call and for the cut of either window.
pub data Event : Type 0 where
  fails : ℕ → ℕ → ℕ → String → String → Event
  succeeds : String → String → Event
  cleans : ℕ → Event

unfoldable pub step : Option RateLimiter → Event → Option RateLimiter
step rl (fails now ip_later user_later ip username) =
    (record_failure now ip_later user_later ip username rl).0
step rl (succeeds ip username) = record_success ip username rl
step rl (cleans now) = cleanup now rl

unfoldable pub run : Option RateLimiter → List Event → Option RateLimiter
run rl [] = rl
run rl (event ∷ events) = run (step rl event) events

-- A map has one entry for a name.
abbrev pub IsMap : Option RateLimiter → Type 0
IsMap none = Unit {0}
IsMap (some rl) = HasUniqueKeys name_of rl.ip_failures × HasUniqueKeys name_of rl.user_failures

pub step-IsMap : (rl : Option RateLimiter) (event : Event) → IsMap rl → IsMap (step rl event)
unfolding step record_failure record_success cleanup
step-IsMap none (fails now ip_later user_later ip username) u = tt
step-IsMap none (succeeds ip username) u = tt
step-IsMap none (cleans now) u = tt
step-IsMap (some rl) (fails now ip_later user_later ip username) u = (
  replace-HasUniqueKeys name_of _ rl.ip_failures u.0,
  replace-HasUniqueKeys name_of _ rl.user_failures u.1,
)
step-IsMap (some rl) (succeeds ip username) u = (
  delete_if-HasUniqueKeys name_of ip (λ _. true) rl.ip_failures u.0,
  delete_if-HasUniqueKeys name_of username (λ _. true) rl.user_failures u.1,
)
step-IsMap (some rl) (cleans now) u = (
  clean_trackers-HasUniqueKeys _ _ now rl.ip_failures u.0,
  clean_trackers-HasUniqueKeys _ _ now rl.user_failures u.1,
)
