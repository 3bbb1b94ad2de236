-- ===== src/Netconf/Handlers/Denial.antt =====
-- The reply to a <lock> of pkg/netconf/rpc_lock.go that another session's lock stands against.
use text.Mathlib.TextEquality.{eq_iff}
use arca_router.Prelude.{
  ℕ, ◌*◌, true, false, String, Result, ok, ◌>>=◌, ◌≡◌, ◌≢◌, refl, ap, ◌∙◌, arith, ltb,
}
use arca_router.Datastore.Schema.{nanoseconds, is_lock_target, Database}
use arca_router.Datastore.Locks.{get_lock_info}
use arca_router.Datastore.Locks.Exclusion.{Holds, acquire_refused}
use arca_router.Netconf.Sessions.{Session, SessionManager}
use arca_router.Netconf.Handlers.{
  Reply, Target, lock_denied, get_datastore, check_lock_target, session_id_to_numeric, lock_request,
  or_reply, lock_failure, after_acquire, lock_on, handle_lock,
}

module _ (sm : SessionManager) (now : ℕ) (s : Session) (db : Database) (target owner : String)
    (h : Holds now target owner db) (other : s.id ≢ owner) (valid : is_lock_target target ≡ true)
    (shown : ltb (h.lock.expires_at * nanoseconds) now ≡ false) where
  lock_failure-denied :
      lock_failure sm now target s (get_lock_info now target db)
      ≡ lock_denied (session_id_to_numeric sm owner)
  unfolding lock_failure get_lock_info
  lock_failure-denied =
      ground (arith, valid, h.found, shown, h.owner, other, eq_iff h.lock.session_id s.id)

  lock_on-denied :
      lock_on sm now target s db ≡ (lock_denied (session_id_to_numeric sm owner), s, db)
  unfolding lock_on
  lock_on-denied =
      let refused =
        acquire_refused now target owner db h (lock_request sm now target s) valid refl other in
      ap (after_acquire sm now target s db) refused ∙ ap (λ r. (r, s, db)) lock_failure-denied

  -- A <lock> of a datastore that another session holds by a lock which has not run out answers with
  -- lock-denied and the session-id of the holder, and changes neither the session nor the datastore.
  pub handle_lock-denied :
      (req : Result Reply Target)
      → req >>= get_datastore ≡ ok target
      → handle_lock sm now req s db ≡ (lock_denied (session_id_to_numeric sm owner), s, db)
  unfolding handle_lock check_lock_target
  handle_lock-denied req e =
      let next = λ (t : String). lock_on sm now t s db in
      let passes : check_lock_target target ≡ ok target = ground (arith, valid) in
      ap (λ r. or_reply s db (r >>= check_lock_target) next) e
      ∙ (ap (λ r. or_reply s db r next) passes ∙ lock_on-denied)
