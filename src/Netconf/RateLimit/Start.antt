-- ===== src/Netconf/RateLimit/Start.antt =====
-- How many failures pkg/netconf/rate_limit.go lets pass before a lockout.
use text.Mathlib.Text.{◌==◌ as str_eq}
use text.Mathlib.TextEquality.{eq_iff}
use arca_router.Prelude.{
  ℕ, ◌+◌, ◌≤◌, ◌<◌, false, List, [], ◌∷◌, ◌++◌, Option, some, String, ◌≡◌, refl, arith, length,
  length-append, if◌then◌else◌, Bool-cases, inl, inr, sym, ap, subst, ◌∙◌,
}
use arca_router.Datastore.Table.{select}
use arca_router.Netconf.RateLimit.{
  RateLimiter, SshConfig, FailureTracker, allowed, check_ip, add_failure, record_failure,
  record_success, cleanup, get_or_create_tracker, new_rate_limiter,
  rate_limiter_config_with_defaults,
}
use arca_router.Netconf.RateLimit.Trackers.{
  tracker_of-put_tracker, tracker_of-delete, tracker_of-clean_trackers,
  length-remove_expired_failures,
}
use arca_router.Netconf.RateLimit.Steps.{
  Event, fails, succeeds, cleans, step, run, IsMap, step-IsMap,
}

abbrev pub failures_in : String → Event → ℕ
failures_in ip (fails _ _ _ other _) = if str_eq other ip then 1 else 0
failures_in ip (succeeds _ _) = 0
failures_in ip (cleans _) = 0

abbrev pub failures_of : String → List Event → ℕ
failures_of ip [] = 0
failures_of ip (event ∷ events) = failures_in ip event + failures_of ip events

-- The address is not locked out, with at most `n` failures on record.
record Fresh (n : ℕ) (ip : String) (rl : RateLimiter) : Type 0 where
  pub open_now : (get_or_create_tracker ip rl.ip_failures).locked_out ≡ false
  pub few : length (get_or_create_tracker ip rl.ip_failures).failures ≤ n

add_failure-few :
    (limit window now later n : ℕ) (tracker : FailureTracker)
    → tracker.locked_out ≡ false
    → length tracker.failures ≤ n
    → n + 1 < limit
    → ((add_failure limit window now later tracker).0.locked_out ≡ false)
      × (length (add_failure limit window now later tracker).0.failures ≤ n + 1)
unfolding add_failure
add_failure-few limit window now later n tracker o h below = ground (
  arith,
  o,
  h,
  below,
  length-remove_expired_failures later window (tracker.failures ++ now ∷ []),
  length-append tracker.failures (now ∷ []),
)

step-Fresh :
    (n : ℕ) (ip : String) (rl : RateLimiter) (event : Event)
    → IsMap (some rl)
    → n + failures_in ip event < rl.config.ip_failure_limit
    → Fresh n ip rl
    → (rl' : RateLimiter) × (step (some rl) event ≡ some rl')
      × (rl'.config ≡ rl.config)
      × Fresh (n + failures_in ip event) ip rl'
unfolding step record_failure record_success cleanup
step-Fresh n ip rl (fails now ip_later user_later other username) u below f =
    let limit = rl.config.ip_failure_limit in
    let window = rl.config.ip_lockout_window in
    let tracker = get_or_create_tracker other rl.ip_failures in
    let law =
      tracker_of-put_tracker other ip (add_failure limit window now ip_later tracker).0
        rl.ip_failures u.0 in
    (
      _,
      refl,
      refl,
      elim (Bool-cases (str_eq other ip)) [
        | inl same ↦
            let e : other ≡ ip = ground (arith, same, eq_iff other ip) in
            let more =
              add_failure-few limit window now ip_later n tracker
                (subst (λ k. (get_or_create_tracker k rl.ip_failures).locked_out ≡ false) (sym e)
                  f.open_now)
                (subst (λ k. length (get_or_create_tracker k rl.ip_failures).failures ≤ n) (sym e)
                  f.few)
                (ground (arith, below, same)) in
            record {
              open_now = ground (arith, law, same, more.0);
              few = ground (arith, law, same, more.1);
            }
        | inr differs ↦ record {
          open_now = ground (arith, law, differs, f.open_now);
          few = ground (arith, law, differs, f.few);
        }
      ],
    )
step-Fresh n ip rl (succeeds other username) u below f = (
  _,
  refl,
  refl,
  record {
    open_now = ground (arith, tracker_of-delete other ip rl.ip_failures u.0, f.open_now);
    few = ground (arith, tracker_of-delete other ip rl.ip_failures u.0, f.few);
  },
)
step-Fresh n ip rl (cleans now) u below f =
    let law =
      tracker_of-clean_trackers rl.config.lockout_duration rl.config.ip_lockout_window now ip
        rl.ip_failures u.0 in
    (
      _,
      refl,
      refl,
      record {
        open_now = ground (arith, law, f.open_now);
        few = ground (
          arith,
          law,
          f.open_now,
          f.few,
          length-remove_expired_failures now rl.config.ip_lockout_window
              (get_or_create_tracker ip rl.ip_failures).failures,
        );
      },
    )

run-Fresh :
    (n : ℕ) (ip : String) (rl : RateLimiter) (events : List Event)
    → IsMap (some rl)
    → n + failures_of ip events < rl.config.ip_failure_limit
    → Fresh n ip rl
    → (rl' : RateLimiter) × (run (some rl) events ≡ some rl')
      × Fresh (n + failures_of ip events) ip rl'
unfolding run
run-Fresh n ip rl [] u below f =
    (rl, refl, record { open_now = f.open_now; few = omega (arith, f.few) })
run-Fresh n ip rl (event ∷ events) u below f =
    let (mid, e, c, f') = step-Fresh n ip rl event u (omega (arith, below)) f in
    let (rl', e', f'') =
      run-Fresh (n + failures_in ip event) ip mid events
        (subst IsMap e (step-IsMap (some rl) event u)) (ground (arith, below, c)) f' in
    (
      rl',
      ap (λ x. run x events) e ∙ e',
      record { open_now = f''.open_now; few = omega (arith, f''.few) },
    )

-- While fewer failures than the limit were recorded for an address since the limiter started, it is
-- allowed, whatever else happened: logins, cleanups, and failures from elsewhere.
pub few_failures_allowed :
    (config : Option SshConfig) (ip : String) (events : List Event) (later : ℕ)
    → failures_of ip events < (rate_limiter_config_with_defaults config).ip_failure_limit
    → check_ip later ip (run (some (new_rate_limiter config)) events) ≡ allowed
unfolding check_ip new_rate_limiter select
few_failures_allowed config ip events later below =
    let (rl, e, f) =
      run-Fresh 0 ip (new_rate_limiter config) events (tt, tt) (omega (arith, below)) start in
    ground (arith, e, f.open_now)
  where
    start : Fresh 0 ip (new_rate_limiter config)
    start = record { open_now = refl; few = omega arith }
