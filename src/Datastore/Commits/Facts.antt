-- ===== src/Datastore/Commits/Facts.antt =====
-- What a commit or a rollback that succeeded has found, and what it has written.
use text.Mathlib.TextEquality.{eq_iff}
use arca_router.Prelude.{
  ℕ, false, List, none, some, String, ok, or_fail, or_fail-eq-ok, ◌≡◌, ◌≢◌, arith, >>=-eq-ok,
  Option-cases, inl, inr,
}
use arca_router.Datastore.Table.{select, insert}
use arca_router.Datastore.Schema.{
  lock_target_candidate, internal, not_found, LockRow, CandidateRow, RunningRow, HistoryRow,
  CommitRequest, RollbackRequest, Database, candidate_key, history_key,
}
use arca_router.Datastore.Locks.{lock_of, is_expired}
use arca_router.Datastore.Commits.{
  check_lock_owner, check_session, clear_current, insert_current, running_row, promote,
  commit_entry, finish_commit, commit, get_commit, rollback_entry, finish_rollback, rollback,
}

-- The session holds the candidate lock, which has not expired.
pub record HoldsLock (now : ℕ) (session_id : String) (db : Database) : Type 0 where
  pub lock : LockRow
  pub found : lock_of db lock_target_candidate ≡ some lock
  pub valid : is_expired now lock ≡ false
  pub owner : lock.session_id ≡ session_id

check_lock_owner-none : (now : ℕ) (s : String) → check_lock_owner now s none ≢ ok tt
unfolding check_lock_owner
check_lock_owner-none now s h = cc

check_lock_owner-some :
    (now : ℕ) (s : String) (lock : LockRow)
    → check_lock_owner now s (some lock) ≡ ok tt
    → (is_expired now lock ≡ false) × (lock.session_id ≡ s)
unfolding check_lock_owner
check_lock_owner-some now s lock h = ground (arith, eq_iff lock.session_id s)

check_lock_owner-HoldsLock :
    (now : ℕ) (session_id : String) (db : Database)
    → check_lock_owner now session_id (lock_of db lock_target_candidate) ≡ ok tt
    → HoldsLock now session_id db
check_lock_owner-HoldsLock now session_id db h =
    elim (Option-cases (lock_of db lock_target_candidate)) [
      | inl e ↦ absurd (check_lock_owner-none now session_id (rw e at h))
      | inr (lock, e) ↦
          let (valid, owner) = check_lock_owner-some now session_id lock (rw e at h) in
          record { lock = lock; found = e; valid = valid; owner = owner }
    ]

pub record Promoted (entry : HistoryRow) (db promoted : Database) : Type 0 where
  pub rows : List RunningRow
  pub history : List HistoryRow
  pub current : insert_current (running_row entry) (clear_current db.running_config) ≡ some rows
  pub logged : insert history_key entry db.commit_history ≡ some history
  pub result : promoted ≡ record db { running_config = rows; commit_history = history }

pub promote-Promoted :
    (entry : HistoryRow) (db : Database) {promoted : Database}
    → promote entry db ≡ ok promoted
    → Promoted entry db promoted
unfolding promote
promote-Promoted entry db h =
    let (rows, r, h') =
      >>=-eq-ok
        (or_fail (insert_current (running_row entry) (clear_current db.running_config)) internal) _
        h in
    let (history, l, h'') =
      >>=-eq-ok (or_fail (insert history_key entry db.commit_history) internal) _ h' in
    record {
      rows = rows;
      history = history;
      current = or_fail-eq-ok _ internal r;
      logged = or_fail-eq-ok _ internal l;
      result = cc;
    }

pub record CommitFacts (now : ℕ) (id : String) (req : CommitRequest) (db db' : Database)
    : Type 0 where
  pub holds : HoldsLock now req.session_id db
  pub candidate : CandidateRow
  pub saved : select candidate_key req.session_id db.candidate_configs ≡ some candidate
  pub promoted : Database
  pub wrote : Promoted (commit_entry now id req candidate) db promoted
  pub result : db' ≡ finish_commit req promoted

pub commit-CommitFacts :
    (now : ℕ) (id : String) (req : CommitRequest) (db : Database) {id' : String} {db' : Database}
    → commit now id (some req) db ≡ ok (id', db')
    → CommitFacts now id req db db'
unfolding commit
commit-CommitFacts now id req db h =
    let (u, owns, h1) =
      >>=-eq-ok (check_lock_owner now req.session_id (lock_of db lock_target_candidate)) _ h in
    let (candidate, c, h2) =
      >>=-eq-ok (or_fail (select candidate_key req.session_id db.candidate_configs) not_found) _
        h1 in
    let (promoted, p, h3) = >>=-eq-ok (promote (commit_entry now id req candidate) db) _ h2 in
    record {
      holds = check_lock_owner-HoldsLock now req.session_id db owns;
      candidate = candidate;
      saved = or_fail-eq-ok _ not_found c;
      promoted = promoted;
      wrote = promote-Promoted (commit_entry now id req candidate) db p;
      result = cc;
    }

pub record RollbackFacts (now : ℕ) (id : String) (req : RollbackRequest) (db db' : Database)
    : Type 0 where
  pub holds : HoldsLock now req.session_id db
  pub target : HistoryRow
  pub found : select history_key req.commit_id db.commit_history ≡ some target
  pub promoted : Database
  pub wrote : Promoted (rollback_entry now id req target) db promoted
  pub result : db' ≡ finish_rollback req promoted

pub rollback-RollbackFacts :
    (now : ℕ) (id : String) (req : RollbackRequest) (db : Database) {id' : String} {db' : Database}
    → rollback now id (some req) db ≡ ok (id', db')
    → RollbackFacts now id req db db'
unfolding rollback get_commit
rollback-RollbackFacts now id req db h =
    let (target, t, h1) =
      >>=-eq-ok (or_fail (select history_key req.commit_id db.commit_history) not_found) _ h in
    let (u, named, h2) = >>=-eq-ok (check_session req.session_id) _ h1 in
    let (w, owns, h3) =
      >>=-eq-ok (check_lock_owner now req.session_id (lock_of db lock_target_candidate)) _ h2 in
    let (promoted, p, h4) = >>=-eq-ok (promote (rollback_entry now id req target) db) _ h3 in
    record {
      holds = check_lock_owner-HoldsLock now req.session_id db owns;
      target = target;
      found = or_fail-eq-ok _ not_found t;
      promoted = promoted;
      wrote = promote-Promoted (rollback_entry now id req target) db p;
      result = cc;
    }
