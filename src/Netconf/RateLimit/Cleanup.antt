-- ===== src/Netconf/RateLimit/Cleanup.antt =====
-- The cleanup loop of pkg/netconf/rate_limit.go, as seen through CheckIP and CheckUser.
use arca_router.Prelude.{ℕ, ◌≤◌, Option, none, some, String, ◌≡◌, refl, arith}
use arca_router.Netconf.RateLimit.{
  RateLimiter, FailureTracker, check_ip, check_user, cleanup, admit, clean_tracker,
}
use arca_router.Netconf.RateLimit.Trackers.{tracker_of-clean_trackers}
use arca_router.Netconf.RateLimit.Steps.{IsMap}

admit-clean_tracker :
    (duration window now later : ℕ) (tracker : FailureTracker)
    → now ≤ later
    → admit duration later (clean_tracker duration window now tracker)
      ≡ admit duration later (some tracker)
admit-clean_tracker duration window now later tracker h = ground (arith, h)

-- A check of a name that directly follows a cleanup, at its time or later and with no other call in
-- between, is answered as without the cleanup.
pub cleanup_unseen :
    (now later : ℕ) (name : String) (rl : Option RateLimiter)
    → IsMap rl
    → now ≤ later
    → (check_ip later name (cleanup now rl) ≡ check_ip later name rl)
      × (check_user later name (cleanup now rl) ≡ check_user later name rl)
unfolding check_ip check_user cleanup
cleanup_unseen now later name none u h = (refl, refl)
cleanup_unseen now later name (some rl) u h = (
  ground (
    arith,
    tracker_of-clean_trackers rl.config.lockout_duration rl.config.ip_lockout_window now name
        rl.ip_failures u.0,
    admit-clean_tracker rl.config.lockout_duration rl.config.ip_lockout_window now later,
    h,
  ),
  ground (
    arith,
    tracker_of-clean_trackers rl.config.lockout_duration rl.config.user_lockout_window now name
        rl.user_failures u.1,
    admit-clean_tracker rl.config.lockout_duration rl.config.user_lockout_window now later,
    h,
  ),
)
