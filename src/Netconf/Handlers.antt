-- ===== src/Netconf/Handlers.antt =====
-- The RPC handlers of pkg/netconf that change something: HandleRPC and checkRBAC of server.go,
-- rpc_lock.go, rpc_transaction.go, and the configuration handlers of rpc_config.go. A request arrives
-- as what UnmarshalOperation makes of it, an error reply or the decoded body. Replies keep the kind of
-- their error and drop its text. What the handlers do with the content of a configuration is the
-- interface `Content`.
pub mod Configs
pub mod Dispatch
pub mod Hooks
pub mod Serving
pub mod Steps
pub mod Permissions
pub mod Denial
mod Tests
use Prim.Native.String.{◌++◌ as str_append}
use text.Mathlib.Text.{◌==◌ as str_eq}
use arca_router.Prelude.{
  ℕ, ◌*◌, Bool, true, false, not, ◌&&◌, ◌||◌, List, [], ◌∷◌, Option, none, some, String, Result, ok,
  err, ◌>>=◌, ◌==◌, if◌then◌else◌,
}
use arca_router.Datastore.Table.{update}
use arca_router.Datastore.Schema.{
  ErrorCode, not_found, nanoseconds, is_lock_target, lock_target_candidate, lock_target_running,
  LockRequest, LockInfo, CommitRequest, CandidateRow, Database, Tx, with_tx,
}
use arca_router.Datastore.Locks.{acquire_lock, release_lock, get_lock_info}
use arca_router.Datastore.Commits.{
  commit, get_candidate, get_running, save_candidate, delete_candidate,
}
use arca_router.Netconf.Sessions.{
  Session, SessionManager, State, session_key, get, add_lock, remove_lock, touch, update_last_used,
  close_session_by_numeric_id,
}

pub data Reply : Type 0 where
  ok_reply malformed operation_failed access_denied unknown_rpc : Reply
  missing_element startup_not_supported writable_running_not_supported invalid_target : Reply
  lock_denied_unowned lock_timeout datastore_error invalid_value : Reply
  validation_failed backend_validation_failed operation_not_supported : Reply
  lock_denied : ℕ → Reply

-- `Target`, and `Source` without an inline configuration: which elements it has.
pub record Target : Type 0 where
  pub running : Bool
  pub candidate : Bool
  pub startup : Bool

abbrev pub startup_datastore : String
startup_datastore = "startup"

-- `GetDatastore`, by `selectDatastore`
unfoldable pub get_datastore : Target → Result Reply String
get_datastore target =
    if target.running && target.candidate
      || target.running && target.startup
      || target.candidate && target.startup
    then err malformed
    else if target.startup
    then ok startup_datastore
    else if target.candidate
    then ok lock_target_candidate
    else if target.running
    then ok lock_target_running
    else err missing_element

-- The target of <lock> and <unlock>.
unfoldable pub check_lock_target : String → Result Reply String
check_lock_target target =
    if is_lock_target target
    then ok target
    else if str_eq target startup_datastore
    then err startup_not_supported
    else err invalid_target

-- The target of the requests that write a configuration.
unfoldable pub check_candidate_target : String → Result Reply String
check_candidate_target target =
    if str_eq target lock_target_candidate
    then ok target
    else if str_eq target lock_target_running
    then err writable_running_not_supported
    else if str_eq target startup_datastore
    then err startup_not_supported
    else err invalid_target

unfoldable pub session_id_to_numeric : SessionManager → String → ℕ
session_id_to_numeric sm id = elim (get id sm) [ some s ↦ s.numeric_id | none ↦ 0 ]

-- What a handler leaves: its reply, the session and the tables.
abbrev pub Outcome : Type 0
Outcome = Reply × Session × Database

-- A request that was refused before anything changed.
abbrev pub or_reply : {A : Type 0} → Session → Database → Result Reply A → (A → Outcome) → Outcome
or_reply s db (err reply) next = (reply, s, db)
or_reply s db (ok a) next = next a

-- A call of the datastore that ends in an error reply or goes on.
abbrev pub or_datastore_error :
    {A : Type 0} → Session → Database → Tx A → (Database → Outcome) → Outcome
or_datastore_error s db (err _) next = (datastore_error, s, db)
or_datastore_error s db (ok (_, db')) next = next db'

module _ (sm : SessionManager) (now : ℕ) where
  abbrev pub lock_request : String → Session → LockRequest
  lock_request target s = record {
    target = target;
    session_id = s.id;
    user = s.username;
    timeout = 3600 * nanoseconds;
  }

  unfoldable pub lock_failure : String → Session → Result ErrorCode LockInfo → Reply
  lock_failure target s (err _) = datastore_error
  lock_failure target s (ok info) =
      if info.is_locked && not (str_eq info.session_id s.id)
      then lock_denied (session_id_to_numeric sm info.session_id)
      else datastore_error

  -- What follows `AcquireLock`.
  abbrev pub after_acquire : String → Session → Database → Tx (Unit {0}) → Outcome
  after_acquire target s db (err _) = (lock_failure target s (get_lock_info now target db), s, db)
  after_acquire target s db (ok (_, db')) = (ok_reply, add_lock target s, db')

  unfoldable pub lock_on : String → Session → Database → Outcome
  lock_on target s db =
      after_acquire target s db (acquire_lock now (some (lock_request target s)) db)

  unfoldable pub handle_lock : Result Reply Target → Session → Database → Outcome
  handle_lock req s db =
      or_reply s db (req >>= get_datastore >>= check_lock_target) (λ target. lock_on target s db)

  -- The checks of `handleUnlock` on the lock that it finds.
  unfoldable pub check_unlock : Session → Result ErrorCode LockInfo → Result Reply (Unit {0})
  check_unlock s (err _) = err datastore_error
  check_unlock s (ok info) =
      if not info.is_locked
      then err lock_timeout
      else if not (str_eq info.session_id s.id)
      then err (lock_denied (session_id_to_numeric sm info.session_id))
      else ok tt

  unfoldable pub unlock_on : String → Session → Database → Outcome
  unlock_on target s db = or_reply s db (check_unlock s (get_lock_info now target db)) λ _.
      or_datastore_error s db (release_lock now target s.id db)
        λ db'. (ok_reply, remove_lock target s, db')

  unfoldable pub handle_unlock : Result Reply Target → Session → Database → Outcome
  handle_unlock req s db =
      or_reply s db (req >>= get_datastore >>= check_lock_target) (λ target. unlock_on target s db)

  -- The checks of `checkLockOwnership` on the lock that it finds.
  unfoldable pub check_owner : Session → Result ErrorCode LockInfo → Result Reply (Unit {0})
  check_owner s (err _) = err datastore_error
  check_owner s (ok info) =
      if not info.is_locked
      then err lock_denied_unowned
      else if not (str_eq info.session_id s.id)
      then err (lock_denied (session_id_to_numeric sm info.session_id))
      else ok tt

  unfoldable pub check_lock_ownership : Session → String → Database → Result Reply (Unit {0})
  check_lock_ownership s target db = check_owner s (get_lock_info now target db)

  unfoldable pub handle_discard_changes : Result Reply (Unit {0}) → Session → Database → Outcome
  handle_discard_changes req s db =
      or_reply s db (req >>= λ _. check_lock_ownership s lock_target_candidate db)
        λ _. or_datastore_error s db (delete_candidate s.id db) (λ db'. (ok_reply, s, db'))

  unfoldable pub handle_delete_config : Result Reply Target → Session → Database → Outcome
  handle_delete_config req s db =
      or_reply s db
        (req >>= get_datastore >>= check_candidate_target >>= λ _.
          check_lock_ownership s lock_target_candidate db)
        λ _. or_datastore_error s db (delete_candidate s.id db) (λ db'. (ok_reply, s, db'))
