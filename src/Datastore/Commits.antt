-- ===== src/Datastore/Commits.antt =====
-- pkg/datastore/sqlite_commit.go and sqlite_config.go, with commit_validation.go and the start-up
-- cleanup of sqlite.go. The commit id that the code draws from `uuid` is an argument.
pub mod Running
pub mod Facts
pub mod Effects
pub mod Outcome
use Prim.Native.String.{◌++◌ as str_append}
use text.Mathlib.Text.{◌==◌ as str_eq}
use arca_router.Prelude.{
  ℕ, ◌+◌, Bool, true, false, not, ◌&&◌, ◌||◌, List, [], ◌∷◌, ◌++◌, Option, none, some, String,
  Result, ok, err, ◌>>=◌, or_fail, ltb, ◌==◌, if◌then◌else◌, length,
}
use arca_router.Datastore.Table.{select, delete, delete_if, update, insert}
use arca_router.Datastore.Schema.{
  ErrorCode, not_found, conflict, validation, internal, lock_target_candidate, LockRow,
  CandidateRow, RunningRow, HistoryRow, AuditRow, CommitRequest, RollbackRequest, Database, Tx,
  lock_key, candidate_key, running_key, history_key, log_event,
}
use arca_router.Datastore.Locks.{lock_of, is_expired}

-- Step 0 of both transactions: the session holds a candidate lock that has not expired.
unfoldable pub check_lock_owner : ℕ → String → Option LockRow → Result ErrorCode (Unit {0})
check_lock_owner now session_id none = err conflict
check_lock_owner now session_id (some lock) =
    if is_expired now lock
    then err conflict
    else if not (str_eq lock.session_id session_id)
    then err conflict
    else ok tt

-- `UPDATE running_config SET is_current = 0 WHERE is_current = 1`
unfoldable pub clear_current : List RunningRow → List RunningRow
clear_current [] = []
clear_current (r ∷ rs) = record r { is_current = false } ∷ clear_current rs

unfoldable pub has_current : List RunningRow → Bool
has_current [] = false
has_current (r ∷ rs) = r.is_current || has_current rs

-- `INSERT INTO running_config (…, is_current) VALUES (…, 1)`, with both unique constraints.
unfoldable pub insert_current : RunningRow → List RunningRow → Option (List RunningRow)
insert_current row rows = if has_current rows then none else insert running_key row rows

-- `DELETE FROM config_locks WHERE target = 'candidate' AND session_id = ?`
abbrev pub release_candidate : String → List LockRow → List LockRow
release_candidate session_id =
    delete_if lock_key lock_target_candidate (λ lock. str_eq lock.session_id session_id)

abbrev pub running_row : HistoryRow → RunningRow
running_row entry = record {
  commit_id = entry.commit_id;
  config_text = entry.config_text;
  timestamp = entry.timestamp;
  is_current = true;
}

-- Steps 1 to 3 of both transactions: the new current row and its history entry.
unfoldable pub promote : HistoryRow → Database → Result ErrorCode Database
promote entry db = do
  rows ← or_fail (insert_current (running_row entry) (clear_current db.running_config)) internal
  history ← or_fail (insert history_key entry db.commit_history) internal
  ok (record db { running_config = rows; commit_history = history })

abbrev log_request : String → String → String → String → String → Database → Database
log_request user session_id source_ip correlation_id action db = record db {
  audit_log =
      db.audit_log
      ++ (record {
        user = user;
        session_id = session_id;
        source_ip = source_ip;
        correlation_id = correlation_id;
        action = action;
      }
          ∷ []);
}

abbrev pub commit_entry : ℕ → String → CommitRequest → CandidateRow → HistoryRow
commit_entry now id req candidate = record {
  commit_id = id;
  user = req.user;
  timestamp = now;
  message = req.message;
  config_text = candidate.config_text;
  is_rollback = false;
  source_ip = req.source_ip;
}

-- Steps 4 to 6 of `Commit`.
abbrev pub finish_commit : CommitRequest → Database → Database
finish_commit req db =
    log_request req.user req.session_id req.source_ip req.correlation_id "commit" (record db {
      candidate_configs = delete candidate_key req.session_id db.candidate_configs;
      config_locks = release_candidate req.session_id db.config_locks;
    })

unfoldable pub commit : ℕ → String → Option CommitRequest → Database → Tx String
commit now id none db = err validation
commit now id (some req) db = do
  _ ← check_lock_owner now req.session_id (lock_of db lock_target_candidate)
  candidate ← or_fail (select candidate_key req.session_id db.candidate_configs) not_found
  promoted ← promote (commit_entry now id req candidate) db
  ok (id, finish_commit req promoted)

unfoldable pub get_commit : String → Database → Result ErrorCode HistoryRow
get_commit id db = or_fail (select history_key id db.commit_history) not_found

-- The message of a rollback, also where the request has none.
abbrev pub rollback_message : RollbackRequest → String
rollback_message req =
    if str_eq req.message "" then str_append "rollback to commit " req.commit_id else req.message

abbrev pub rollback_entry : ℕ → String → RollbackRequest → HistoryRow → HistoryRow
rollback_entry now id req target = record {
  commit_id = id;
  user = req.user;
  timestamp = now;
  message = rollback_message req;
  config_text = target.config_text;
  is_rollback = true;
  source_ip = req.source_ip;
}

unfoldable pub check_session : String → Result ErrorCode (Unit {0})
check_session session_id = if str_eq session_id "" then err conflict else ok tt

-- Steps 4 and 5 of `Rollback`.
abbrev pub finish_rollback : RollbackRequest → Database → Database
finish_rollback req db =
    log_request req.user req.session_id req.source_ip req.correlation_id "rollback"
      (record db { config_locks = release_candidate req.session_id db.config_locks })

unfoldable pub rollback : ℕ → String → Option RollbackRequest → Database → Tx String
rollback now id none db = err validation
rollback now id (some req) db = do
  target ← get_commit req.commit_id db
  _ ← check_session req.session_id
  _ ← check_lock_owner now req.session_id (lock_of db lock_target_candidate)
  promoted ← promote (rollback_entry now id req target) db
  ok (id, finish_rollback req promoted)

unfoldable pub current_row : List RunningRow → Option RunningRow
current_row [] = none
current_row (r ∷ rs) = if r.is_current then some r else current_row rs

unfoldable pub get_running : Database → Result ErrorCode RunningRow
get_running db = or_fail (current_row db.running_config) not_found

unfoldable pub get_candidate : String → Database → Result ErrorCode CandidateRow
get_candidate session_id db =
    or_fail (select candidate_key session_id db.candidate_configs) not_found

abbrev pub new_candidate : ℕ → String → String → CandidateRow
new_candidate now session_id text = record {
  session_id = session_id;
  config_text = text;
  created_at = now;
  updated_at = now;
}

-- `INSERT … ON CONFLICT(session_id) DO UPDATE`
unfoldable pub upsert_candidate : ℕ → String → String → List CandidateRow → List CandidateRow
upsert_candidate now session_id text rows = elim (select candidate_key session_id rows) [
  | none ↦ rows ++ new_candidate now session_id text ∷ []
  | some _ ↦
      update candidate_key session_id (λ row. record row { config_text = text; updated_at = now })
        rows
]

-- `protect` is `pkgconfig.ProtectSecretsInSetCommands`, which hashes the passwords in the text.
unfoldable pub save_candidate :
    (String → Option String) → ℕ → String → String → Database → Tx (Unit {0})
save_candidate protect now session_id text db = do
  protected_text ← or_fail (protect text) validation
  ok (
    tt,
    record db {
      candidate_configs = upsert_candidate now session_id protected_text db.candidate_configs;
    },
  )

unfoldable pub delete_candidate : String → Database → Tx (Unit {0})
delete_candidate session_id db =
    ok (tt, record db { candidate_configs = delete candidate_key session_id db.candidate_configs })

unfoldable pub cleanup_ephemeral_state : Database → Tx (Unit {0})
cleanup_ephemeral_state db =
    let cleaned = record db { candidate_configs = []; config_locks = [] } in
    if length db.candidate_configs + length db.config_locks == 0
    then ok (tt, cleaned)
    else ok (tt, log_event "system" "" "startup_cleanup" cleaned)
