-- ===== src/Datastore/Commits/Outcome.antt =====
-- When a commit and a rollback succeed.
use text.Mathlib.Text.{◌==◌ as str_eq}
use text.Mathlib.TextEquality.{eq_iff}
use arca_router.Prelude.{
  ℕ, List, [], ◌∷◌, ◌++◌, none, some, String, ok, err, ◌≡◌, refl, Bool-cases, Option-cases, inl,
  inr,
}
use arca_router.Datastore.Table.{select, insert}
use arca_router.Datastore.Schema.{
  conflict, lock_target_candidate, CandidateRow, HistoryRow, CommitRequest, RollbackRequest,
  Database, running_key, history_key,
}
use arca_router.Datastore.Locks.{lock_of, is_expired}
use arca_router.Datastore.Commits.{
  check_lock_owner, check_session, clear_current, insert_current, running_row, promote,
  commit_entry, finish_commit, commit, get_commit, get_candidate, rollback,
}
use arca_router.Datastore.Commits.Running.{clear_current-none, select-clear_current}
use arca_router.Datastore.Commits.Facts.{HoldsLock}

check_lock_owner-refused :
    (now : ℕ) (session_id : String) (db : Database)
    → ¬ HoldsLock now session_id db
    → check_lock_owner now session_id (lock_of db lock_target_candidate) ≡ err conflict
unfolding check_lock_owner
check_lock_owner-refused now session_id db h =
    elim (Option-cases (lock_of db lock_target_candidate)) [
      | inl e ↦ rw e refl
      | inr (lock, e) ↦ elim (Bool-cases (is_expired now lock)) [
        | inl gone ↦ rw (e, check_lock_owner, gone) refl
        | inr valid ↦ elim (Bool-cases (str_eq lock.session_id session_id)) [
          | inl own ↦ absurd (
              h (record {
                lock = lock;
                found = e;
                valid = valid;
                owner = (eq_iff lock.session_id session_id).0 own;
              }))
          | inr other ↦ rw (e, check_lock_owner, valid, other) refl
        ]
      ]
    ]

-- A session that does not hold an unexpired candidate lock is refused its commit with a conflict, and
-- so is its rollback to any commit that exists.
pub commit_refused :
    (now : ℕ) (id : String) (req : CommitRequest) (back : RollbackRequest) (target : HistoryRow)
    (db : Database)
    → ¬ HoldsLock now req.session_id db
    → back.session_id ≡ req.session_id
    → get_commit back.commit_id db ≡ ok target
    → (commit now id (some req) db ≡ err conflict) × (rollback now id (some back) db ≡ err conflict)
unfolding commit rollback check_session
commit_refused now id req back target db h same found =
    let refusal = check_lock_owner-refused now req.session_id db h in
    (
      rw refusal refl,
      elim (Bool-cases (str_eq back.session_id "")) [
        | inl unnamed ↦ rw (found, unnamed) refl
        | inr named ↦ rw (found, named, same, refusal) refl
      ],
    )

check_lock_owner-passes :
    (now : ℕ) (session_id : String) (db : Database)
    → HoldsLock now session_id db
    → check_lock_owner now session_id (lock_of db lock_target_candidate) ≡ ok tt
unfolding check_lock_owner
check_lock_owner-passes now session_id db h =
    rw (h.found, check_lock_owner, h.valid, (eq_iff h.lock.session_id session_id).1 h.owner) refl

insert_fresh :
    {R : Type 0} (key : R → String) (r : R) (rs : List R)
    → select key (key r) rs ≡ none
    → insert key r rs ≡ some (rs ++ r ∷ [])
unfolding insert
insert_fresh key r rs h = rw (h, insert) refl

promote_fresh :
    (entry : HistoryRow) (db : Database)
    → select running_key entry.commit_id db.running_config ≡ none
    → select history_key entry.commit_id db.commit_history ≡ none
    → (promoted : Database) × (promote entry db ≡ ok promoted)
unfolding promote insert_current
promote_fresh entry db r h =
    let cleared = clear_current db.running_config in
    let row = running_row entry in
    let free = select-clear_current entry.commit_id db.running_config r in
    (
      record db {
        running_config = cleared ++ row ∷ [];
        commit_history = db.commit_history ++ entry ∷ [];
      },
      rw
          (
            clear_current-none db.running_config,
            insert_fresh running_key row cleared free,
            insert_fresh history_key entry db.commit_history h,
          )
          refl,
    )

-- The holder of an unexpired candidate lock that has saved a candidate commits it, as long as the id
-- that is drawn for the commit was never used.
pub commit_total :
    (now : ℕ) (id : String) (req : CommitRequest) (candidate : CandidateRow) (db : Database)
    → HoldsLock now req.session_id db
    → get_candidate req.session_id db ≡ ok candidate
    → select running_key id db.running_config ≡ none
    → select history_key id db.commit_history ≡ none
    → (db' : Database) × (commit now id (some req) db ≡ ok (id, db'))
unfolding commit get_candidate
commit_total now id req candidate db h saved r c =
    let (promoted, p) = promote_fresh (commit_entry now id req candidate) db r c in
    (
      finish_commit req promoted,
      rw (check_lock_owner-passes now req.session_id db h, saved, p) refl,
    )
