-- ===== src/Netconf/RateLimit/Burst.antt =====
-- That enough failures in a row start a lockout, in pkg/netconf/rate_limit.go.
use text.Mathlib.TextEquality.{eq_iff}
use arca_router.Prelude.{
  ℕ, ◌+◌, ◌≤◌, ◌<◌, true, false, List, [], ◌∷◌, ◌++◌, Option, none, some, String, ◌≡◌, refl, arith,
  ltb, length, length-append, Bool-cases, inl, inr, sym, ap, subst, ◌∙◌,
}
use arca_router.Datastore.Table.{select}
use arca_router.Netconf.RateLimit.{
  ℤ, pos, negsuc, or_fallback, RateLimiter, Limits, SshConfig, FailureTracker, locked_until,
  check_ip, add_failure, tracker_of, record_failure, get_or_create_tracker, remove_expired_failures,
  new_rate_limiter, put_tracker, rate_limiter_config_with_defaults,
}
use arca_router.Netconf.RateLimit.Trackers.{tracker_of-put_tracker}
use arca_router.Netconf.RateLimit.Steps.{Event, fails, step, run, IsMap, step-IsMap}
use arca_router.Netconf.RateLimit.Lockout.{LockedSince, AllSpare, run-Keeps, check_ip_locked}

-- One failed attempt to log in from an address, with the readings of the clock.
pub record Attempt : Type 0 where
  pub now : ℕ
  pub ip_later : ℕ
  pub user_later : ℕ
  pub username : String

abbrev pub attempts_from : String → List Attempt → List Event
attempts_from ip [] = []
attempts_from ip (a ∷ attempts) =
    fails a.now a.ip_later a.user_later ip a.username ∷ attempts_from ip attempts

-- All attempts happen within `window` of `start`.
abbrev pub AllWithin : ℕ → ℕ → List Attempt → Type 0
AllWithin start window [] = Unit {0}
AllWithin start window (a ∷ attempts) =
    (start ≤ a.now) × (a.ip_later ≤ start + window) × AllWithin start window attempts

abbrev AllFrom : ℕ → List ℕ → Type 0
AllFrom start [] = Unit {0}
AllFrom start (at ∷ failures) = (start ≤ at) × AllFrom start failures

AllFrom-append :
    (start now : ℕ) (failures : List ℕ)
    → AllFrom start failures
    → start ≤ now
    → AllFrom start (failures ++ now ∷ [])
AllFrom-append start now [] h e = (e, tt)
AllFrom-append start now (at ∷ failures) h e = (h.0, AllFrom-append start now failures h.1 e)

remove_expired_failures-AllFrom :
    (start later window : ℕ) (failures : List ℕ)
    → AllFrom start failures
    → later ≤ start + window
    → remove_expired_failures later window failures ≡ failures
unfolding remove_expired_failures
remove_expired_failures-AllFrom start later window [] h e = refl
remove_expired_failures-AllFrom start later window (at ∷ failures) h e = ground (arith, h.0, e)

-- The address is not locked out, and its `n` failures on record happened from `start` on.
record Counting (start n : ℕ) (tracker : FailureTracker) : Type 0 where
  pub open_now : tracker.locked_out ≡ false
  pub many : length tracker.failures ≡ n
  pub from : AllFrom start tracker.failures

module _ (limit window start now later n : ℕ) (tracker : FailureTracker) (from : start ≤ now)
    (within : later ≤ start + window) (c : Counting start n tracker) where
  kept_all :
      remove_expired_failures later window (tracker.failures ++ now ∷ [])
      ≡ tracker.failures ++ now ∷ []
  kept_all =
      remove_expired_failures-AllFrom start later window (tracker.failures ++ now ∷ [])
        (AllFrom-append start now tracker.failures c.from from) within

  add_failure-Counting :
      n + 1 < limit → Counting start (n + 1) (add_failure limit window now later tracker).0
  unfolding add_failure
  add_failure-Counting below =
      let facts = (length-append tracker.failures (now ∷ [])) in
      let all : (add_failure limit window now later tracker).0.failures
          ≡ tracker.failures ++ now ∷ [] =
        ground (arith, kept_all) in
      record {
        open_now = ground (arith, kept_all, c.open_now, c.many, below, facts);
        many = ground (arith, all, c.many, facts);
        from =
            subst (AllFrom start) (sym all) (AllFrom-append start now tracker.failures c.from from);
      }

  add_failure_locks :
      limit ≤ n + 1
      → ((add_failure limit window now later tracker).0.locked_out ≡ true)
        × ((add_failure limit window now later tracker).0.lockout_at ≡ now)
  unfolding add_failure
  add_failure_locks enough =
      ground
        (arith, kept_all, c.open_now, c.many, enough, length-append tracker.failures (now ∷ []))

own_tracker :
    (ip : String) (tracker : FailureTracker) (rl : RateLimiter)
    → IsMap (some rl)
    → tracker_of ip (put_tracker ip tracker rl.ip_failures) ≡ some tracker
own_tracker ip tracker rl u =
    ground (arith, tracker_of-put_tracker ip ip tracker rl.ip_failures u.0, eq_iff ip ip)

attempts_spare :
    (until : ℕ) (ip : String) (attempts : List Attempt)
    → AllSpare until ip (attempts_from ip attempts)
attempts_spare until ip [] = tt
attempts_spare until ip (a ∷ attempts) = (tt, attempts_spare until ip attempts)

abbrev LocksAfter : ℕ → String → RateLimiter → List Attempt → Type 0
LocksAfter start ip rl attempts =
    (rl' : RateLimiter) × (run (some rl) (attempts_from ip attempts) ≡ some rl')
    × (rl'.config ≡ rl.config)
    × ((at : ℕ) × (start ≤ at) × LockedSince at ip rl')

step-own :
    (ip : String) (rl : RateLimiter) (a : Attempt)
    → IsMap (some rl)
    → (rl' : RateLimiter) × (step (some rl) (fails a.now a.ip_later a.user_later ip a.username)
        ≡ some rl')
      × (rl'.config ≡ rl.config)
      × (tracker_of ip rl'.ip_failures
          ≡ some
              (add_failure rl.config.ip_failure_limit rl.config.ip_lockout_window a.now a.ip_later
                (get_or_create_tracker ip rl.ip_failures)).0)
unfolding step record_failure
step-own ip rl a u = (_, refl, refl, own_tracker ip _ rl u)

attempts_lock :
    (start n : ℕ) (ip : String) (rl : RateLimiter) (attempts : List Attempt)
    → IsMap (some rl)
    → n < rl.config.ip_failure_limit
    → rl.config.ip_failure_limit ≤ n + length attempts
    → AllWithin start rl.config.ip_lockout_window attempts
    → Counting start n (get_or_create_tracker ip rl.ip_failures)
    → LocksAfter start ip rl attempts
unfolding run
attempts_lock start n ip rl [] u below enough within c = absurd (omega (arith, below, enough))
attempts_lock start n ip rl (a ∷ attempts) u below enough within c =
    let limit = rl.config.ip_failure_limit in
    let window = rl.config.ip_lockout_window in
    let tracker = get_or_create_tracker ip rl.ip_failures in
    let (mid, e, k, own) = step-own ip rl a u in
    let u' = subst IsMap e (step-IsMap (some rl) _ u) in
    elim (Bool-cases (ltb (n + 1) limit)) [
      | inl more ↦
          let counted =
            add_failure-Counting limit window start a.now a.ip_later n tracker within.0 within.1 c
              (ground (arith, more)) in
          let (rl', e', k', locked) =
            attempts_lock start (n + 1) ip mid attempts u' (ground (arith, more, k))
              (ground (arith, enough, k))
              (subst (λ (l : Limits). AllWithin start l.ip_lockout_window attempts) (sym k)
                within.2)
              (subst (Counting start (n + 1)) (ground (arith, own)) counted) in
          (rl', ap (λ x. run x (attempts_from ip attempts)) e ∙ e', k' ∙ k, locked)
      | inr done ↦
          let locks =
            add_failure_locks limit window start a.now a.ip_later n tracker within.0 within.1 c
              (ground (arith, done)) in
          let (rl', e', k', locked) =
            run-Keeps a.now ip mid (attempts_from ip attempts) u' (attempts_spare _ ip attempts)
              (record {
                tracker = (add_failure limit window a.now a.ip_later tracker).0;
                found = own;
                locked = locks.0;
                since = locks.1;
              }) in
          (
            rl',
            ap (λ x. run x (attempts_from ip attempts)) e ∙ e',
            k' ∙ k,
            (a.now, within.0, locked),
          )
    ]

or_fallback_positive : (fallback : ℕ) (n : ℤ) → 0 < fallback → 0 < or_fallback fallback n
or_fallback_positive fallback (pos n) h = ground arith
or_fallback_positive fallback (negsuc n) h = h

positive :
    (config : Option SshConfig) → 0 < (rate_limiter_config_with_defaults config).ip_failure_limit
unfolding rate_limiter_config_with_defaults
positive none = omega arith
positive (some config) = or_fallback_positive 3 config.ip_failure_limit (omega arith)

-- On a new limiter that has seen nothing but the failures of one address, as many of these as the
-- limit, all from `start` on and within its window, lock the address out: it is refused at any time
-- before `start` plus the lockout duration.
pub burst_locks :
    (config : Option SshConfig) (start later : ℕ) (ip : String) (attempts : List Attempt)
    → let limits = rate_limiter_config_with_defaults config in
      limits.ip_failure_limit ≤ length attempts
      → AllWithin start limits.ip_lockout_window attempts
      → later < start + limits.lockout_duration
      → (until : ℕ) × (start + limits.lockout_duration ≤ until)
        × (check_ip later ip (run (some (new_rate_limiter config)) (attempts_from ip attempts))
            ≡ locked_until until)
unfolding new_rate_limiter select
burst_locks config start later ip attempts enough within early =
    let (rl, e, k, (at, from, l)) =
      attempts_lock start 0 ip (new_rate_limiter config) attempts (tt, tt) (positive config)
        (omega (arith, enough)) within (record { open_now = refl; many = refl; from = tt }) in
    (
      at + (rate_limiter_config_with_defaults config).lockout_duration,
      omega (arith, from),
      ground (arith, e, k, check_ip_locked later at ip rl l, early, from),
    )
