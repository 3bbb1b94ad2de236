-- ===== src/Netconf/RateLimit/Tests.antt =====
-- Runs of the rate limiter under the default limits.
use text.Mathlib.TextEquality.{eq_iff}
use arca_router.Prelude.{true, ℕ, ◌+◌, ◌≤◌, [], ◌∷◌, none, some, String, ◌≡◌, ◌≢◌, refl, arith}
use arca_router.Datastore.Table.{select, replace}
use arca_router.Netconf.RateLimit.{
  RateLimiter, allowed, locked_until, check_ip, check_user, cleanup, new_rate_limiter,
  rate_limiter_config_with_defaults, minutes, default_limits, record_failure, add_failure,
  remove_expired_failures,
}
use arca_router.Netconf.RateLimit.Steps.{Event, fails, succeeds, cleans, run, step}
use arca_router.Netconf.RateLimit.Cleanup.{cleanup_unseen}
use arca_router.Netconf.RateLimit.Lockout.{lockout_lasts, expired_lockout_stays_open}
use arca_router.Netconf.RateLimit.Start.{few_failures_allowed}
use arca_router.Netconf.RateLimit.Burst.{Attempt, attempts_from, burst_locks}

abbrev failing : ℕ → Event
failing at = fails at at at "192.0.2.1" "ann"

-- An address that was locked out at 100 with three failures.
abbrev locked : RateLimiter
locked = record {
  config = default_limits;
  ip_failures =
      record {
        name = "192.0.2.1";
        tracker = record { failures = 80 ∷ 90 ∷ 100 ∷ []; locked_out = true; lockout_at = 100 };
      }
      ∷ [];
  user_failures = [];
}

locked_by_failures :
    check_ip 200 "192.0.2.1"
      (run (some (new_rate_limiter none)) (failing 80 ∷ failing 90 ∷ failing 100 ∷ []))
    ≡ locked_until (100 + minutes 15)
unfolding run step record_failure add_failure remove_expired_failures check_ip new_rate_limiter
    rate_limiter_config_with_defaults select replace
locked_by_failures = refl

cleanup_unseen_example :
    (check_ip 300 "192.0.2.1" (cleanup 200 (some locked)) ≡ check_ip 300 "192.0.2.1" (some locked))
    × (check_user 300 "192.0.2.1" (cleanup 200 (some locked))
        ≡ check_user 300 "192.0.2.1" (some locked))
unfolding select
cleanup_unseen_example =
    cleanup_unseen 200 300 "192.0.2.1" (some locked) ((refl, tt), tt) (omega arith)

elsewhere : ◌≢◌ {A = String} "192.0.2.7" "192.0.2.1"
elsewhere = ground (arith, eq_iff "192.0.2.7" "192.0.2.1")

lockout_lasts_example :
    check_ip 300 "192.0.2.1"
      (run (some locked) (failing 210 ∷ succeeds "192.0.2.7" "ann" ∷ cleans 220 ∷ []))
    ≡ locked_until (100 + minutes 15)
unfolding select check_ip
lockout_lasts_example =
    lockout_lasts 200 300 (100 + minutes 15) "192.0.2.1" locked
      (failing 210 ∷ succeeds "192.0.2.7" "ann" ∷ cleans 220 ∷ []) ((refl, tt), tt) refl
      (tt, (elsewhere, (omega arith, tt))) (omega arith)

expired_lockout_stays_open_example :
    check_ip (minutes 17) "192.0.2.1" (
      run (some locked) (
        failing (minutes 16)
        ∷ failing (minutes 16)
        ∷ failing (minutes 16)
        ∷ failing (minutes 16)
        ∷ []))
    ≡ allowed
unfolding select check_ip
expired_lockout_stays_open_example =
    expired_lockout_stays_open 200 (minutes 17) (100 + minutes 15) "192.0.2.1" locked
      (failing (minutes 16)
        ∷ failing (minutes 16)
        ∷ failing (minutes 16)
        ∷ failing (minutes 16)
        ∷ [])
      ((refl, tt), tt) refl (tt, (tt, (tt, (tt, tt)))) (omega arith)

few_failures_allowed_example :
    check_ip 200 "192.0.2.1" (
      run
        (some (new_rate_limiter none))
        (failing 80 ∷ fails 90 90 90 "192.0.2.7" "ann" ∷ cleans 95 ∷ failing 100 ∷ []))
    ≡ allowed
unfolding rate_limiter_config_with_defaults
few_failures_allowed_example =
    few_failures_allowed none "192.0.2.1"
      (failing 80 ∷ fails 90 90 90 "192.0.2.7" "ann" ∷ cleans 95 ∷ failing 100 ∷ []) 200
      (omega arith)

abbrev guess : ℕ → Attempt
guess at = record { now = at; ip_later = at; user_later = at; username = "root" }

burst_locks_example :
    (until : ℕ) × (50 + minutes 15 ≤ until)
    × (check_ip 200 "192.0.2.1" (
          run
            (some (new_rate_limiter none))
            (attempts_from "192.0.2.1" (guess 80 ∷ guess 90 ∷ guess 100 ∷ [])))
        ≡ locked_until until)
unfolding rate_limiter_config_with_defaults
burst_locks_example =
    burst_locks none 50 200 "192.0.2.1" (guess 80 ∷ guess 90 ∷ guess 100 ∷ []) (omega arith)
      (omega arith, omega arith, (omega arith, omega arith, (omega arith, omega arith, tt)))
      (omega arith)
