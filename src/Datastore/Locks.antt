-- ===== src/Datastore/Locks.antt =====
-- pkg/datastore/sqlite_lock.go, lock_validation.go, and the lock cleanup of sqlite.go.
pub mod Exclusion
pub mod Unlocks
use text.Mathlib.Text.{◌==◌ as str_eq}
use arca_router.Prelude.{
  ℕ, ◌+◌, ◌*◌, ◌/◌, Bool, true, false, not, ◌&&◌, ◌||◌, List, [], ◌∷◌, ◌++◌, Option, none, some,
  String, Result, ok, err, ◌>>=◌, or_fail, ltb, ◌==◌, if◌then◌else◌, length,
}
use arca_router.Datastore.Table.{select, delete, delete_if, update, insert, replace}
use arca_router.Datastore.Schema.{
  ErrorCode, not_found, conflict, validation, internal, unix, nanoseconds, default_lock_timeout,
  is_lock_target, LockRow, LockRequest, StealLockRequest, LockInfo, Database, Tx, lock_key,
  log_event,
}

abbrev pub lock_of : Database → String → Option LockRow
lock_of db target = select lock_key target db.config_locks

-- `now.Unix() > expiresAt.Unix()`
abbrev pub is_expired : ℕ → LockRow → Bool
is_expired now lock = ltb lock.expires_at (unix now)

abbrev pub or_default : ℕ → ℕ
or_default timeout = if timeout == 0 then default_lock_timeout else timeout

-- `UPDATE config_locks SET expires_at = ?, last_activity = ?`
abbrev pub extended : ℕ → ℕ → LockRow → LockRow
extended now duration lock = record lock {
  expires_at = unix (now + duration);
  last_activity = unix now;
}

abbrev pub new_lock : ℕ → LockRequest → LockRow
new_lock now req = record {
  target = req.target;
  session_id = req.session_id;
  user = req.user;
  acquired_at = unix now;
  expires_at = unix (now + or_default req.timeout);
  last_activity = unix now;
}

abbrev pub stolen_lock : ℕ → StealLockRequest → LockRow
stolen_lock now req = record {
  target = req.target;
  session_id = req.new_session_id;
  user = req.user;
  acquired_at = unix now;
  expires_at = unix (now + default_lock_timeout);
  last_activity = unix now;
}

unfoldable pub acquire_new : ℕ → LockRequest → Database → Tx (Unit {0})
acquire_new now req db = do
  locks ← or_fail (insert lock_key (new_lock now req) db.config_locks) internal
  ok (tt, log_event req.user req.session_id "lock_acquire" (record db { config_locks = locks }))

unfoldable pub acquire_over : ℕ → LockRequest → LockRow → Database → Tx (Unit {0})
acquire_over now req lock db =
    if is_expired now lock
    then acquire_new now req
        (record db { config_locks = delete lock_key req.target db.config_locks })
    else if str_eq lock.session_id req.session_id
    then ok (
      tt,
      log_event lock.user req.session_id "lock_extend" (record db {
        config_locks =
            update lock_key req.target (extended now (or_default req.timeout)) db.config_locks;
      }),
    )
    else err conflict

unfoldable pub acquire_lock : ℕ → Option LockRequest → Database → Tx (Unit {0})
acquire_lock now none db = err validation
acquire_lock now (some req) db =
    if is_lock_target req.target
    then elim (lock_of db req.target) [
      | none ↦ acquire_new now req db
      | some lock ↦ acquire_over now req lock db
    ]
    else err validation

unfoldable pub release_held : ℕ → String → String → LockRow → Database → Tx (Unit {0})
release_held now target session_id lock db =
    let released = record db { config_locks = delete lock_key target db.config_locks } in
    if is_expired now lock
    then ok (tt, released)
    else if not (str_eq lock.session_id session_id)
    then err conflict
    else ok (tt, log_event lock.user session_id "lock_release" released)

unfoldable pub release_lock : ℕ → String → String → Database → Tx (Unit {0})
release_lock now target session_id db =
    if is_lock_target target
    then elim (lock_of db target) [
      | none ↦ ok (tt, db)
      | some lock ↦ release_held now target session_id lock db
    ]
    else err validation

unfoldable pub extend_held : ℕ → String → String → ℕ → LockRow → Database → Tx (Unit {0})
extend_held now target session_id duration lock db =
    if is_expired now lock
    then err conflict
    else if not (str_eq lock.session_id session_id)
    then err conflict
    else ok (
      tt,
      log_event lock.user session_id "lock_extend" (record db {
        config_locks = update lock_key target (extended now (or_default duration)) db.config_locks;
      }),
    )

unfoldable pub extend_lock : ℕ → String → String → ℕ → Database → Tx (Unit {0})
extend_lock now target session_id duration db =
    if is_lock_target target
    then elim (lock_of db target) [
      | none ↦ err not_found
      | some lock ↦ extend_held now target session_id duration lock db
    ]
    else err validation

-- The former holder is read for the text of the audit event alone.
unfoldable pub steal_lock : ℕ → StealLockRequest → Database → Tx (Unit {0})
steal_lock now req db =
    if is_lock_target req.target
    then ok (
      tt,
      log_event req.user req.new_session_id "lock_steal"
          (record db { config_locks = replace lock_key (stolen_lock now req) db.config_locks }),
    )
    else err validation

abbrev pub no_lock : LockInfo
no_lock = record { is_locked = false; session_id = ""; user = ""; acquired_at = 0; expires_at = 0 }

-- `time.Now().After(expiresAtTime)` compares nanoseconds.
unfoldable pub get_lock_info : ℕ → String → Database → Result ErrorCode LockInfo
get_lock_info now target db =
    if is_lock_target target
    then elim (lock_of db target) [
      | none ↦ ok no_lock
      | some lock ↦
          if ltb (lock.expires_at * nanoseconds) now
          then ok no_lock
          else ok (record {
            is_locked = true;
            session_id = lock.session_id;
            user = lock.user;
            acquired_at = lock.acquired_at * nanoseconds;
            expires_at = lock.expires_at * nanoseconds;
          })
    ]
    else err validation

-- `DELETE FROM config_locks WHERE expires_at < now`
unfoldable pub drop_expired : ℕ → List LockRow → List LockRow
drop_expired now [] = []
drop_expired now (lock ∷ locks) =
    let rest = drop_expired now locks in if is_expired now lock then rest else lock ∷ rest

unfoldable pub perform_lock_cleanup : ℕ → Database → Tx (Unit {0})
perform_lock_cleanup now db =
    let kept = drop_expired now db.config_locks in
    let cleaned = record db { config_locks = kept } in
    if ltb (length kept) (length db.config_locks)
    then ok (tt, log_event "system" "" "lock_cleanup" cleaned)
    else ok (tt, cleaned)
