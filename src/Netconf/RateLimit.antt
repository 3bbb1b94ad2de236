-- ===== src/Netconf/RateLimit.antt =====
-- pkg/netconf/rate_limit.go: failed authentications per address and per user, and the lockouts they
-- lead to. Times and durations count nanoseconds. A map of trackers is a list of entries, searched
-- by name. A call reads the clock once here, but `RecordFailure` takes the later readings that
-- `removeExpiredFailures` makes as arguments of their own.
pub mod Trackers
pub mod Steps
pub mod Lockout
pub mod Start
pub mod Burst
pub mod Cleanup
mod Tests
use arca_router.Prelude.{
  ℕ, ◌+◌, ◌*◌, Bool, true, false, not, ◌&&◌, ◌||◌, List, [], ◌∷◌, ◌++◌, Option, none, some, String,
  ltb, leb, if◌then◌else◌, length,
}
use arca_router.Datastore.Table.{select, delete, update, replace}

pub record FailureTracker : Type 0 where
  pub failures : List ℕ
  pub locked_out : Bool
  pub lockout_at : ℕ

abbrev pub new_tracker : FailureTracker
new_tracker = record { failures = []; locked_out = false; lockout_at = 0 }

pub record Tracked : Type 0 where
  pub name : String
  pub tracker : FailureTracker

abbrev pub name_of : Tracked → String
name_of entry = entry.name

-- A Go `int` or `time.Duration` of the configuration, which may be negative.
pub data ℤ : Type 0 where
  pos : ℕ → ℤ
  negsuc : ℕ → ℤ

-- The fields of `SSHConfig` that the limiter reads.
pub record SshConfig : Type 0 where
  pub ip_failure_limit : ℤ
  pub user_failure_limit : ℤ
  pub ip_lockout_window : ℤ
  pub user_lockout_window : ℤ
  pub lockout_duration : ℤ

-- The same fields once the defaults are in: all of them are positive.
pub record Limits : Type 0 where
  pub ip_failure_limit : ℕ
  pub user_failure_limit : ℕ
  pub ip_lockout_window : ℕ
  pub user_lockout_window : ℕ
  pub lockout_duration : ℕ

abbrev pub minutes : ℕ → ℕ
minutes n = n * 60000000000

abbrev pub default_limits : Limits
default_limits = record {
  ip_failure_limit = 3;
  user_failure_limit = 5;
  ip_lockout_window = minutes 5;
  user_lockout_window = minutes 10;
  lockout_duration = minutes 15;
}

-- `if value <= 0 { value = fallback }`
abbrev pub or_fallback : ℕ → ℤ → ℕ
or_fallback fallback (pos n) = if ltb 0 n then n else fallback
or_fallback fallback (negsuc n) = fallback

unfoldable pub rate_limiter_config_with_defaults : Option SshConfig → Limits
rate_limiter_config_with_defaults none = default_limits
rate_limiter_config_with_defaults (some config) = record {
  ip_failure_limit = or_fallback default_limits.ip_failure_limit config.ip_failure_limit;
  user_failure_limit = or_fallback default_limits.user_failure_limit config.user_failure_limit;
  ip_lockout_window = or_fallback default_limits.ip_lockout_window config.ip_lockout_window;
  user_lockout_window = or_fallback default_limits.user_lockout_window config.user_lockout_window;
  lockout_duration = or_fallback default_limits.lockout_duration config.lockout_duration;
}

pub record RateLimiter : Type 0 where
  pub config : Limits
  pub ip_failures : List Tracked
  pub user_failures : List Tracked

unfoldable pub new_rate_limiter : Option SshConfig → RateLimiter
new_rate_limiter config = record {
  config = rate_limiter_config_with_defaults config;
  ip_failures = [];
  user_failures = [];
}

-- `allowed` is `(true, time.Time{})`, `locked_until` is `(false, unlockAt)`.
pub data Admission : Type 0 where
  allowed : Admission
  locked_until : ℕ → Admission

abbrev pub tracker_of : String → List Tracked → Option FailureTracker
tracker_of name entries = elim (select name_of name entries) [
  | none ↦ none
  | some entry ↦ some entry.tracker
]

-- `time.Since(tracker.lockoutAt) < config.LockoutDuration`
abbrev pub is_active : ℕ → ℕ → FailureTracker → Bool
is_active duration now tracker = tracker.locked_out && ltb now (tracker.lockout_at + duration)

abbrev pub admit : ℕ → ℕ → Option FailureTracker → Admission
admit duration now none = allowed
admit duration now (some tracker) =
    if is_active duration now tracker then locked_until (tracker.lockout_at + duration) else allowed

-- A nil limiter is `none`.
unfoldable pub check_ip : ℕ → String → Option RateLimiter → Admission
check_ip now ip none = allowed
check_ip now ip (some rl) = admit rl.config.lockout_duration now (tracker_of ip rl.ip_failures)

unfoldable pub check_user : ℕ → String → Option RateLimiter → Admission
check_user now username none = allowed
check_user now username (some rl) =
    admit rl.config.lockout_duration now (tracker_of username rl.user_failures)

-- Drops the failures in front that lie before `now - window`.
unfoldable pub remove_expired_failures : ℕ → ℕ → List ℕ → List ℕ
remove_expired_failures now window [] = []
remove_expired_failures now window (at ∷ failures) =
    let rest = remove_expired_failures now window failures in
    if ltb (at + window) now then rest else at ∷ failures

abbrev pub get_or_create_tracker : String → List Tracked → FailureTracker
get_or_create_tracker name entries = elim (tracker_of name entries) [
  | none ↦ new_tracker
  | some tracker ↦ tracker
]

-- One more failure at `now`, the window cut at `later`, with whether this one locks.
unfoldable pub add_failure : ℕ → ℕ → ℕ → ℕ → FailureTracker → FailureTracker × Bool
add_failure limit window now later tracker =
    let kept = remove_expired_failures later window (tracker.failures ++ now ∷ []) in
    if leb limit (length kept) && not tracker.locked_out
    then (record { failures = kept; locked_out = true; lockout_at = now }, true)
    else (record tracker { failures = kept }, false)

abbrev pub put_tracker : String → FailureTracker → List Tracked → List Tracked
put_tracker name tracker = replace name_of (record { name = name; tracker = tracker })

-- The address and the user have critical sections of their own, one after the other.
unfoldable pub record_failure :
    ℕ → ℕ → ℕ → String → String → Option RateLimiter → Option RateLimiter × (Bool × Bool)
record_failure now ip_later user_later ip username none = (none, (false, false))
record_failure now ip_later user_later ip username (some rl) =
    let of_ip =
      add_failure rl.config.ip_failure_limit rl.config.ip_lockout_window now ip_later
        (get_or_create_tracker ip rl.ip_failures) in
    let of_user =
      add_failure rl.config.user_failure_limit rl.config.user_lockout_window now user_later
        (get_or_create_tracker username rl.user_failures) in
    (
      some (record rl {
        ip_failures = put_tracker ip of_ip.0 rl.ip_failures;
        user_failures = put_tracker username of_user.0 rl.user_failures;
      }),
      (of_ip.1, of_user.1),
    )

unfoldable pub record_success : String → String → Option RateLimiter → Option RateLimiter
record_success ip username none = none
record_success ip username (some rl) = some (record rl {
  ip_failures = delete name_of ip rl.ip_failures;
  user_failures = delete name_of username rl.user_failures;
})

-- One round of the cleanup loops: `none` is a deleted entry.
abbrev pub clean_tracker : ℕ → ℕ → ℕ → FailureTracker → Option FailureTracker
clean_tracker duration window now tracker =
    let kept = remove_expired_failures now window tracker.failures in
    if tracker.locked_out && not (is_active duration now tracker)
    then none
    else if not (ltb 0 (length kept)) && not tracker.locked_out
    then none
    else some (record tracker { failures = kept })

unfoldable pub clean_trackers : ℕ → ℕ → ℕ → List Tracked → List Tracked
clean_trackers duration window now [] = []
clean_trackers duration window now (entry ∷ entries) =
    let rest = clean_trackers duration window now entries in
    elim (clean_tracker duration window now entry.tracker) [
      | none ↦ rest
      | some tracker ↦ record entry { tracker = tracker } ∷ rest
    ]

unfoldable pub cleanup : ℕ → Option RateLimiter → Option RateLimiter
cleanup now none = none
cleanup now (some rl) = some (record rl {
  ip_failures =
      clean_trackers rl.config.lockout_duration rl.config.ip_lockout_window now rl.ip_failures;
  user_failures =
      clean_trackers rl.config.lockout_duration rl.config.user_lockout_window now rl.user_failures;
})

pub record RateLimiterStats : Type 0 where
  pub ips_tracked : ℕ
  pub ips_locked : ℕ
  pub users_tracked : ℕ
  pub users_locked : ℕ
  pub lockout_window : ℕ

unfoldable pub count_locked : List Tracked → ℕ
count_locked [] = 0
count_locked (entry ∷ entries) = (if entry.tracker.locked_out then 1 else 0) + count_locked entries

unfoldable pub get_stats : Option RateLimiter → RateLimiterStats
get_stats none = record {
  ips_tracked = 0;
  ips_locked = 0;
  users_tracked = 0;
  users_locked = 0;
  lockout_window = 0;
}
get_stats (some rl) = record {
  ips_tracked = length rl.ip_failures;
  ips_locked = count_locked rl.ip_failures;
  users_tracked = length rl.user_failures;
  users_locked = count_locked rl.user_failures;
  lockout_window = rl.config.lockout_duration;
}
