-- ===== src/Datastore/Locks/Unlocks.antt =====
-- How a lock of the SQLite datastore goes: by a release, by the commit of its holder, or with the
-- expired locks.
use text.Mathlib.Text.{◌==◌ as str_eq}
use text.Mathlib.TextEquality.{eq_iff}
use arca_router.Prelude.{
  ℕ, true, false, List, [], ◌∷◌, none, some, String, ok, err, ◌≡◌, ◌≢◌, sym, ap, ◌∙◌, arith,
  ne_of_str_eq, Bool-cases, Option-cases, inl, inr,
}
use arca_router.Datastore.Table.{select, delete, HasUniqueKeys, select-delete_if}
use arca_router.Datastore.Schema.{
  ErrorCode, is_lock_target, lock_target_candidate, LockRow, CommitRequest, Database, lock_key,
}
use arca_router.Datastore.Locks.{
  lock_of, is_expired, release_lock, release_held, drop_expired, perform_lock_cleanup,
}
use arca_router.Datastore.Commits.{commit, release_candidate}
use arca_router.Datastore.Commits.Facts.{commit-CommitFacts}

-- The lock of one target is gone, the others are as they were.
pub record Unlocks (target : String) (db db' : Database) : Type 0 where
  pub gone : lock_of db' target ≡ none
  pub others : (t : String) → t ≢ target → lock_of db' t ≡ lock_of db t

-- A lock that is left was there before, on another target.
pub lock_of-Unlocks :
    (target : String) (db db' : Database)
    → Unlocks target db db'
    → (t : String) (row : LockRow) → lock_of db' t ≡ some row
    → (lock_of db t ≡ some row) × (str_eq target t ≡ false)
lock_of-Unlocks target db db' u t row f = elim (Bool-cases (str_eq target t)) [
  | inl here ↦
      let h : target ≡ t = (eq_iff target t).0 here in
      let impossible : none ≡ some row = sym u.gone ∙ (ap (lock_of db') h ∙ f) in absurd cc
  | inr there ↦ (sym (u.others t (ne_of_str_eq target t there).1) ∙ f, there)
]

delete-Unlocks :
    (target : String) (db db' : Database)
    → HasUniqueKeys lock_key db.config_locks
    → db'.config_locks ≡ delete lock_key target db.config_locks
    → Unlocks target db db'
delete-Unlocks target db db' u e =
    let law = λ (t : String).
      ap (select lock_key t) e ∙ select-delete_if lock_key target t (λ _. true) db.config_locks u in
    record {
      gone = law target ∙ ground (arith, eq_iff target target);
      others = λ t other. law t ∙ ground (arith, eq_iff target t);
    }

pub release_lock-Unlocks :
    (now : ℕ) (target session : String) (db : Database) {db' : Database}
    → HasUniqueKeys lock_key db.config_locks
    → release_lock now target session db ≡ ok (tt, db')
    → Unlocks target db db'
unfolding release_lock release_held
release_lock-Unlocks now target session db {db'} u e = elim (Option-cases (lock_of db target)) [
  | inl f ↦
      let same : db ≡ db' = ground (arith, e, f) in
      record {
        gone = ap (λ d. lock_of d target) (sym same) ∙ f;
        others = λ t _. ap (λ d. lock_of d t) (sym same);
      }
  | inr (row, f) ↦ delete-Unlocks target db db' u (ground (arith, e, f))
]

-- A release is refused for a lock target only where the session does not hold the lock.
pub release_lock_refused :
    (now : ℕ) (target session : String) (db : Database) {e : ErrorCode} (row : LockRow)
    → is_lock_target target ≡ true
    → release_lock now target session db ≡ err e
    → lock_of db target ≡ some row
    → row.session_id ≢ session
unfolding release_lock release_held
release_lock_refused now target session db row t e f same =
    ground (arith, e, t, f, eq_iff row.session_id session)

pub commit-Unlocks :
    (now : ℕ) (id : String) (req : CommitRequest) (db : Database) {id' : String} {db' : Database}
    → HasUniqueKeys lock_key db.config_locks
    → commit now id (some req) db ≡ ok (id', db')
    → Unlocks lock_target_candidate db db'
commit-Unlocks now id req db {db'} u e =
    let f = commit-CommitFacts now id req db e in
    let kept = ap (λ (d : Database). d.config_locks) f.wrote.result in
    let locks : db'.config_locks ≡ release_candidate req.session_id db.config_locks =
      ap (λ (d : Database). d.config_locks) f.result ∙ ap (release_candidate req.session_id) kept in
    let law = λ (t : String).
      ap (select lock_key t) locks
      ∙ select-delete_if lock_key lock_target_candidate t
          (λ lock. str_eq lock.session_id req.session_id) db.config_locks u in
    record {
      gone = ground (
        arith,
        law lock_target_candidate,
        f.holds.found,
        f.holds.owner,
        eq_iff f.holds.lock.session_id req.session_id,
      );
      others = λ t other. ground (arith, law t, eq_iff lock_target_candidate t);
    }

drop_expired-select :
    (now : ℕ) (k : String) (locks : List LockRow) (row : LockRow)
    → HasUniqueKeys lock_key locks
    → select lock_key k (drop_expired now locks) ≡ some row
    → select lock_key k locks ≡ some row
unfolding select drop_expired
drop_expired-select now k [] row u h = h
drop_expired-select now k (l ∷ locks) row u h =
    ground (arith, drop_expired-select now k locks row u.1, u.0, eq_iff l.target k)

-- The clean-up only takes rows away.
pub perform_lock_cleanup-lock_of :
    (now : ℕ) (k : String) (db db' : Database) (row : LockRow)
    → HasUniqueKeys lock_key db.config_locks
    → perform_lock_cleanup now db ≡ ok (tt, db')
    → lock_of db' k ≡ some row
    → lock_of db k ≡ some row
unfolding perform_lock_cleanup
perform_lock_cleanup-lock_of now k db db' row u e h =
    let kept : db'.config_locks ≡ drop_expired now db.config_locks = ground (arith, e) in
    drop_expired-select now k db.config_locks row u (ap (select lock_key k) (sym kept) ∙ h)

-- A release takes no lock that another session holds.
pub release_lock-others :
    (now : ℕ) (target session : String) (db : Database) {db' : Database} (t : String)
    (row : LockRow)
    → HasUniqueKeys lock_key db.config_locks
    → release_lock now target session db ≡ ok (tt, db')
    → lock_of db t ≡ some row
    → is_expired now row ≡ false
    → row.session_id ≢ session
    → lock_of db' t ≡ some row
unfolding release_lock release_held
release_lock-others now target session db {db'} t row u e f valid other =
    elim (Bool-cases (str_eq target t)) [
      | inl here ↦
          let h : target ≡ t = (eq_iff target t).0 here in
          let f' : lock_of db target ≡ some row = ap (lock_of db) h ∙ f in
          absurd (ground (arith, e, f', valid, other, eq_iff row.session_id session))
      | inr there ↦
          (release_lock-Unlocks now target session db u e).others t (ne_of_str_eq target t there).1
          ∙ f
    ]
