-- ===== src/Netconf/RateLimit/Lockout.antt =====
-- How long a lockout of pkg/netconf/rate_limit.go lasts and what starts one.
use text.Mathlib.Text.{◌==◌ as str_eq}
use text.Mathlib.TextEquality.{eq_iff}
use arca_router.Prelude.{
  ℕ, ◌+◌, ◌≤◌, ◌<◌, true, List, [], ◌∷◌, Option, some, String, ◌≡◌, ◌≢◌, refl, arith, ltb,
  if◌then◌else◌, Option-cases, Bool-cases, inl, inr, sym, ap, subst, ◌∙◌,
}
use arca_router.Netconf.RateLimit.{
  RateLimiter, Limits, FailureTracker, allowed, locked_until, check_ip, add_failure, tracker_of,
  record_failure, record_success, cleanup, get_or_create_tracker, remove_expired_failures,
  put_tracker,
}
use arca_router.Netconf.RateLimit.Trackers.{
  tracker_of-put_tracker, tracker_of-delete, tracker_of-clean_trackers,
}
use arca_router.Netconf.RateLimit.Steps.{
  Event, fails, succeeds, cleans, step, run, IsMap, step-IsMap,
}

-- The address was locked out at `at`, whether the lockout has run out or not.
pub record LockedSince (at : ℕ) (ip : String) (rl : RateLimiter) : Type 0 where
  pub tracker : FailureTracker
  pub found : tracker_of ip rl.ip_failures ≡ some tracker
  pub locked : tracker.locked_out ≡ true
  pub since : tracker.lockout_at ≡ at

-- The event neither comes from a login through the address nor is a cleanup after `until`.
abbrev pub Spares : ℕ → String → Event → Type 0
Spares until ip (fails _ _ _ _ _) = Unit {0}
Spares until ip (succeeds other _) = other ≢ ip
Spares until ip (cleans now) = now < until

abbrev pub AllSpare : ℕ → String → List Event → Type 0
AllSpare until ip [] = Unit {0}
AllSpare until ip (event ∷ events) = Spares until ip event × AllSpare until ip events

add_failure_locked :
    (limit window now later : ℕ) (tracker : FailureTracker)
    → tracker.locked_out ≡ true
    → ((add_failure limit window now later tracker).0.locked_out ≡ true)
      × ((add_failure limit window now later tracker).0.lockout_at ≡ tracker.lockout_at)
unfolding add_failure
add_failure_locked limit window now later tracker h = ground (arith, h)

failure_keeps :
    (limit window now later at : ℕ) (other ip : String) (rl rl' : RateLimiter)
    → IsMap (some rl)
    → rl'.ip_failures
      ≡ put_tracker other
          (add_failure limit window now later (get_or_create_tracker other rl.ip_failures)).0
          rl.ip_failures
    → LockedSince at ip rl
    → LockedSince at ip rl'
failure_keeps limit window now later at other ip rl rl' u e l =
    let law =
      tracker_of-put_tracker other ip
        (add_failure limit window now later (get_or_create_tracker other rl.ip_failures)).0
        rl.ip_failures u.0 in
    elim (Bool-cases (str_eq other ip)) [
      | inl same ↦ record {
        tracker = (add_failure limit window now later l.tracker).0;
        found = ground (arith, law, e, same, l.found, eq_iff other ip);
        locked = (add_failure_locked limit window now later l.tracker l.locked).0;
        since = (add_failure_locked limit window now later l.tracker l.locked).1 ∙ l.since;
      }
      | inr differs ↦ record {
        tracker = l.tracker;
        found = ground (arith, law, e, differs, l.found);
        locked = l.locked;
        since = l.since;
      }
    ]

abbrev Keeps : ℕ → String → RateLimiter → Option RateLimiter → Type 0
Keeps at ip rl after =
    (rl' : RateLimiter) × (after ≡ some rl') × (rl'.config ≡ rl.config) × LockedSince at ip rl'

step-Keeps :
    (at : ℕ) (ip : String) (rl : RateLimiter) (event : Event)
    → IsMap (some rl)
    → Spares (at + rl.config.lockout_duration) ip event
    → LockedSince at ip rl
    → Keeps at ip rl (step (some rl) event)
unfolding step record_failure record_success cleanup
step-Keeps at ip rl (fails now ip_later user_later other username) u spare l =
    (_, refl, refl, failure_keeps _ _ now ip_later at other ip rl _ u refl l)
step-Keeps at ip rl (succeeds other username) u spare l = (
  _,
  refl,
  refl,
  record {
    tracker = l.tracker;
    found =
        ground
          (arith, tracker_of-delete other ip rl.ip_failures u.0, l.found, spare, eq_iff other ip);
    locked = l.locked;
    since = l.since;
  },
)
step-Keeps at ip rl (cleans now) u spare l = (
  _,
  refl,
  refl,
  record {
    tracker = record l.tracker {
      failures = remove_expired_failures now rl.config.ip_lockout_window l.tracker.failures;
    };
    found = ground (
      arith,
      tracker_of-clean_trackers rl.config.lockout_duration rl.config.ip_lockout_window now ip
          rl.ip_failures u.0,
      l.found,
      l.locked,
      l.since,
      spare,
    );
    locked = l.locked;
    since = l.since;
  },
)

pub run-Keeps :
    (at : ℕ) (ip : String) (rl : RateLimiter) (events : List Event)
    → IsMap (some rl)
    → AllSpare (at + rl.config.lockout_duration) ip events
    → LockedSince at ip rl
    → Keeps at ip rl (run (some rl) events)
unfolding run
run-Keeps at ip rl [] u spare l = (rl, refl, refl, l)
run-Keeps at ip rl (event ∷ events) u spare l =
    let (mid, e, c, l') = step-Keeps at ip rl event u spare.0 l in
    let (rl', e', c', l'') =
      run-Keeps at ip mid events (subst IsMap e (step-IsMap (some rl) event u))
        (subst (λ (k : Limits). AllSpare (at + k.lockout_duration) ip events) (sym c) spare.1) l' in
    (rl', ap (λ x. run x events) e ∙ e', c' ∙ c, l'')

check_ip-LockedSince :
    (now until : ℕ) (ip : String) (rl : RateLimiter)
    → check_ip now ip (some rl) ≡ locked_until until
    → (at : ℕ) × LockedSince at ip rl × (at + rl.config.lockout_duration ≡ until)
unfolding check_ip
check_ip-LockedSince now until ip rl h = elim (Option-cases (tracker_of ip rl.ip_failures)) [
  | inl n ↦ absurd (ground (arith, h, n))
  | inr (tracker, found) ↦ (
    tracker.lockout_at,
    record { tracker = tracker; found = found; locked = ground (arith, h, found); since = refl },
    ground (arith, h, found),
  )
]

pub check_ip_locked :
    (now at : ℕ) (ip : String) (rl : RateLimiter)
    → LockedSince at ip rl
    → check_ip now ip (some rl) ≡ (
        if ltb now (at + rl.config.lockout_duration)
        then locked_until (at + rl.config.lockout_duration)
        else allowed)
unfolding check_ip
check_ip_locked now at ip rl l = ground (arith, l.found, l.locked, l.since)

-- A lockout lasts until the time that CheckIP announced, through any calls in between but a login
-- from the same address: failures, logins from elsewhere and cleanups before that time.
pub lockout_lasts :
    (now later until : ℕ) (ip : String) (rl : RateLimiter) (events : List Event)
    → IsMap (some rl)
    → check_ip now ip (some rl) ≡ locked_until until
    → AllSpare until ip events
    → later < until
    → check_ip later ip (run (some rl) events) ≡ locked_until until
lockout_lasts now later until ip rl events u h spare early =
    let (at, l, ends) = check_ip-LockedSince now until ip rl h in
    let (rl', e, c, l') =
      run-Keeps at ip rl events u (subst (λ t. AllSpare t ip events) (sym ends) spare) l in
    ground (arith, e, c, ends, check_ip_locked later at ip rl' l', early)

-- Once a lockout has run out, and until the next cleanup, the address is allowed however many
-- failures it adds: no new lockout starts.
pub expired_lockout_stays_open :
    (now later until : ℕ) (ip : String) (rl : RateLimiter) (events : List Event)
    → IsMap (some rl)
    → check_ip now ip (some rl) ≡ locked_until until
    → AllSpare until ip events
    → until ≤ later
    → check_ip later ip (run (some rl) events) ≡ allowed
expired_lockout_stays_open now later until ip rl events u h spare late =
    let (at, l, ends) = check_ip-LockedSince now until ip rl h in
    let (rl', e, c, l') =
      run-Keeps at ip rl events u (subst (λ t. AllSpare t ip events) (sym ends) spare) l in
    ground (arith, e, c, ends, check_ip_locked later at ip rl' l', late)
