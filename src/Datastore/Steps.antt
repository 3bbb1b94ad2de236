-- ===== src/Datastore/Steps.antt =====
-- The calls that change the SQLite datastore, as transactions one after the other: SQLite lets one
-- write transaction run at a time, so any interleaving of sessions is a sequence of these steps.
pub mod Held
pub mod Stability
use arca_router.Prelude.{ℕ, List, [], ◌∷◌, Option, String, Result}
use arca_router.Datastore.Schema.{
  LockRequest, StealLockRequest, CommitRequest, RollbackRequest, Database, with_tx,
}
use arca_router.Datastore.Locks.{
  acquire_lock, release_lock, extend_lock, steal_lock, perform_lock_cleanup,
}
use arca_router.Datastore.Commits.{
  commit, rollback, save_candidate, delete_candidate, cleanup_ephemeral_state,
}

pub data Call : Type 0 where
  acquires : Option LockRequest → Call
  releases : String → String → Call
  extends : String → String → ℕ → Call
  steals : StealLockRequest → Call
  cleans : Call
  saves : String → String → Call
  deletes : String → Call
  commits : String → Option CommitRequest → Call
  rollbacks : String → Option RollbackRequest → Call
  restarts : Call

module _ (protect : String → Option String) where
  -- One call at a time `now`; a call that fails leaves the tables as they were.
  unfoldable pub step : Database → ℕ × Call → Database
  step db (now, acquires req) = (with_tx db (acquire_lock now req db)).0
  step db (now, releases target session_id) = (with_tx db (release_lock now target session_id db)).0
  step db (now, extends target session_id duration) =
      (with_tx db (extend_lock now target session_id duration db)).0
  step db (now, steals req) = (with_tx db (steal_lock now req db)).0
  step db (now, cleans) = (with_tx db (perform_lock_cleanup now db)).0
  step db (now, saves session_id text) =
      (with_tx db (save_candidate protect now session_id text db)).0
  step db (now, deletes session_id) = (with_tx db (delete_candidate session_id db)).0
  step db (now, commits id req) = (with_tx db (commit now id req db)).0
  step db (now, rollbacks id req) = (with_tx db (rollback now id req db)).0
  step db (now, restarts) = (with_tx db (cleanup_ephemeral_state db)).0

  unfoldable pub run : Database → List (ℕ × Call) → Database
  run db [] = db
  run db (c ∷ cs) = run (step db c) cs
