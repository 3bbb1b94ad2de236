-- ===== src/Datastore/Invariant.antt =====
-- What every transaction keeps of the tables.
pub mod Locks
pub mod Commits
use text.Mathlib.Text.{◌==◌ as str_eq}
use text.Mathlib.TextEquality.{eq_iff}
use arca_router.Prelude.{
  ◌+◌, Bool, true, false, not, ◌&&◌, ◌||◌, ◌++◌, none, some, Result, or_fail, or_fail-eq-ok, ◌>>=◌,
  ◌≡◌, refl, arith, if◌then◌else◌, >>=-eq-ok, Bool-cases, Option-cases, if-elim, inl, inr, ltb,
  ◌==◌, length,
}
use arca_router.Datastore.Table.{
  select, delete, delete_if, update, insert, replace, HasUniqueKeys, select-insert,
  insert-HasUniqueKeys, delete_if-HasUniqueKeys, update-HasUniqueKeys, replace-HasUniqueKeys,
}
use arca_router.Datastore.Schema.{
  ErrorCode, is_lock_target, StealLockRequest, LockRequest, AuditRow, LockRow, RunningRow,
  HistoryRow, lock_key, candidate_key, running_key, history_key,
}
use arca_router.Datastore.Locks.{
  or_default, lock_of, stolen_lock, acquire_lock, new_lock, acquire_new, acquire_over, release_lock,
  release_held, extend_lock, extend_held, steal_lock, drop_expired, perform_lock_cleanup, extended,
  is_expired,
}
use arca_router.Datastore.Commits.{
  clear_current, has_current, insert_current, promote, commit, rollback, check_lock_owner,
  check_session, get_commit, upsert_candidate, save_candidate, delete_candidate,
  cleanup_ephemeral_state,
}
use arca_router.Datastore.WellFormed.{WellFormed}
