-- ===== src/Datastore/Schema.antt =====
-- The tables of pkg/datastore/migrations, the request types of pkg/datastore/schema.go, and the
-- transactions of pkg/datastore/sqlite.go. Times are nanoseconds since the epoch; the tables of the
-- locks hold seconds. The text of errors and of audit details is left out, as are failures of the
-- driver other than a violated constraint: they abort the transaction like any other error.
use text.Mathlib.Text.{◌==◌ as str_eq}
use arca_router.Prelude.{ℕ, ◌*◌, ◌/◌, Bool, ◌||◌, List, [], ◌∷◌, ◌++◌, String, Result, ok, err}

pub data ErrorCode : Type 0 where
  not_found conflict validation timeout internal unauthorized : ErrorCode

abbrev pub nanoseconds : ℕ
nanoseconds = 1_000_000_000

-- `time.Time.Unix()`
abbrev pub unix : ℕ → ℕ
unix t = t / nanoseconds

abbrev pub default_lock_timeout : ℕ
default_lock_timeout = 30 * 60 * nanoseconds

abbrev pub lock_target_candidate : String
lock_target_candidate = "candidate"

abbrev pub lock_target_running : String
lock_target_running = "running"

-- `ValidateLockTarget`: whether the target passes.
unfoldable pub is_lock_target : String → Bool
is_lock_target target = str_eq target lock_target_candidate || str_eq target lock_target_running

pub record LockRow : Type 0 where
  pub target : String
  pub session_id : String
  pub user : String
  pub acquired_at : ℕ
  pub expires_at : ℕ
  pub last_activity : ℕ

pub record CandidateRow : Type 0 where
  pub session_id : String
  pub config_text : String
  pub created_at : ℕ
  pub updated_at : ℕ

pub record RunningRow : Type 0 where
  pub commit_id : String
  pub config_text : String
  pub timestamp : ℕ
  pub is_current : Bool

-- `CommitHistoryEntry`
pub record HistoryRow : Type 0 where
  pub commit_id : String
  pub user : String
  pub timestamp : ℕ
  pub message : String
  pub config_text : String
  pub is_rollback : Bool
  pub source_ip : String

pub record AuditRow : Type 0 where
  pub user : String
  pub session_id : String
  pub source_ip : String
  pub correlation_id : String
  pub action : String

pub record Database : Type 0 where
  pub config_locks : List LockRow
  pub candidate_configs : List CandidateRow
  pub running_config : List RunningRow
  pub commit_history : List HistoryRow
  pub audit_log : List AuditRow

pub record LockRequest : Type 0 where
  pub target : String
  pub session_id : String
  pub user : String
  pub timeout : ℕ

pub record StealLockRequest : Type 0 where
  pub target : String
  pub new_session_id : String
  pub user : String
  pub target_session_id : String
  pub reason : String

pub record CommitRequest : Type 0 where
  pub session_id : String
  pub user : String
  pub message : String
  pub source_ip : String
  pub correlation_id : String

pub record RollbackRequest : Type 0 where
  pub session_id : String
  pub commit_id : String
  pub user : String
  pub message : String
  pub source_ip : String
  pub correlation_id : String

pub record LockInfo : Type 0 where
  pub is_locked : Bool
  pub session_id : String
  pub user : String
  pub acquired_at : ℕ
  pub expires_at : ℕ

-- What a transaction's function makes of the tables.
abbrev pub Tx : Type 0 → Type 0
Tx A = Result ErrorCode (A × Database)

-- `withTx`: the tables are written back on success, and rolled back on an error.
abbrev pub with_tx : {A : Type 0} → Database → Tx A → Database × Result ErrorCode A
with_tx db (ok (a, db')) = (db', ok a)
with_tx db (err e) = (db, err e)

abbrev pub lock_key : LockRow → String
lock_key r = r.target

abbrev pub candidate_key : CandidateRow → String
candidate_key r = r.session_id

abbrev pub running_key : RunningRow → String
running_key r = r.commit_id

abbrev pub history_key : HistoryRow → String
history_key r = r.commit_id

-- `INSERT INTO audit_log` with no source address.
abbrev pub log_event : String → String → String → Database → Database
log_event user session_id action db = record db {
  audit_log =
      db.audit_log
      ++ (record {
        user = user;
        session_id = session_id;
        source_ip = "";
        correlation_id = "";
        action = action;
      }
          ∷ []);
}
