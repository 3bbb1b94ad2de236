-- ===== src/Datastore/Invariant/Locks.antt =====
-- The lock calls keep the tables well formed.
use text.Mathlib.Text.{◌==◌ as str_eq}
use arca_router.Prelude.{
  ℕ, not, List, [], ◌∷◌, Option, none, some, String, ◌≡◌, refl, arith, Option-cases, if-elim, inl,
  inr, ltb, length,
}
use arca_router.Datastore.Table.{
  select, delete, insert, HasUniqueKeys, insert-HasUniqueKeys, replace-HasUniqueKeys,
}
use arca_router.Datastore.Schema.{
  is_lock_target, StealLockRequest, LockRequest, LockRow, Database, lock_key,
}
use arca_router.Datastore.Locks.{
  or_default, lock_of, stolen_lock, acquire_lock, new_lock, acquire_new, acquire_over, release_lock,
  release_held, extend_lock, extend_held, steal_lock, drop_expired, perform_lock_cleanup,
  is_expired,
}
use arca_router.Datastore.WellFormed.{WellFormed, Keeps, relocked, deleted, extended_unique}

acquire_new-WellFormed :
    (db : Database) (v : WellFormed db) (now : ℕ) (req : LockRequest)
    → Keeps (acquire_new now req db)
unfolding acquire_new
acquire_new-WellFormed db v now req =
    let row = new_lock now req in
    elim (Option-cases (insert lock_key row db.config_locks)) [
      | inl e ↦ rw e tt
      | inr (locks, e) ↦
          rw e (relocked db v locks _ (insert-HasUniqueKeys lock_key row db.config_locks e v.locks))
    ]

acquire_over-WellFormed :
    (db : Database) (v : WellFormed db) (now : ℕ) (req : LockRequest) (lock : LockRow)
    → Keeps (acquire_over now req lock db)
unfolding acquire_over
acquire_over-WellFormed db v now req lock =
    let cleared = record db { config_locks = delete lock_key req.target db.config_locks } in
    let fresh =
      acquire_new-WellFormed cleared (relocked db v _ db.audit_log (deleted db v req.target)) now
        req in
    let kept = relocked db v _ _ (extended_unique db v req.target now (or_default req.timeout)) in
    if-elim Keeps (is_expired now lock) fresh
      (if-elim Keeps (str_eq lock.session_id req.session_id) kept tt)

pub acquire_lock-WellFormed :
    (db : Database) (v : WellFormed db) (now : ℕ) (req : Option LockRequest)
    → Keeps (acquire_lock now req db)
unfolding acquire_lock
acquire_lock-WellFormed db v now none = tt
acquire_lock-WellFormed db v now (some req) = elim (Option-cases (lock_of db req.target)) [
  | inl e ↦
      rw e (if-elim Keeps (is_lock_target req.target) (acquire_new-WellFormed db v now req) tt)
  | inr (lock, e) ↦
      rw e
        (if-elim Keeps (is_lock_target req.target) (acquire_over-WellFormed db v now req lock) tt)
]

pub release_lock-WellFormed :
    (db : Database) (v : WellFormed db) (now : ℕ) (target session_id : String)
    → Keeps (release_lock now target session_id db)
unfolding release_lock release_held
release_lock-WellFormed db v now target session_id =
    let gone = deleted db v target in
    elim (Option-cases (lock_of db target)) [
      | inl e ↦ rw e (if-elim Keeps (is_lock_target target) v tt)
      | inr (lock, e) ↦ rw e (
          if-elim Keeps (is_lock_target target)
            (if-elim Keeps (is_expired now lock) (relocked db v _ _ gone)
              (if-elim Keeps (not (str_eq lock.session_id session_id)) tt (relocked db v _ _ gone)))
            tt)
    ]

pub extend_lock-WellFormed :
    (db : Database) (v : WellFormed db) (now : ℕ) (target session_id : String) (duration : ℕ)
    → Keeps (extend_lock now target session_id duration db)
unfolding extend_lock extend_held
extend_lock-WellFormed db v now target session_id duration =
    let kept = extended_unique db v target now (or_default duration) in
    elim (Option-cases (lock_of db target)) [
      | inl e ↦ rw e (if-elim Keeps (is_lock_target target) tt tt)
      | inr (lock, e) ↦ rw e (
          if-elim Keeps (is_lock_target target)
            (if-elim Keeps (is_expired now lock) tt
              (if-elim Keeps (not (str_eq lock.session_id session_id)) tt (relocked db v _ _ kept)))
            tt)
    ]

pub steal_lock-WellFormed :
    (db : Database) (v : WellFormed db) (now : ℕ) (req : StealLockRequest)
    → Keeps (steal_lock now req db)
unfolding steal_lock
steal_lock-WellFormed db v now req =
    let taken = replace-HasUniqueKeys lock_key (stolen_lock now req) db.config_locks v.locks in
    if-elim Keeps (is_lock_target req.target) (relocked db v _ _ taken) tt

select-drop_expired :
    (now : ℕ) (k : String) (locks : List LockRow)
    → select lock_key k locks ≡ none
    → select lock_key k (drop_expired now locks) ≡ none
unfolding select drop_expired
select-drop_expired now k [] h = refl
select-drop_expired now k (l ∷ locks) h = ground (arith, select-drop_expired now k locks)

drop_expired-HasUniqueKeys :
    (now : ℕ) (locks : List LockRow)
    → HasUniqueKeys lock_key locks
    → HasUniqueKeys lock_key (drop_expired now locks)
unfolding drop_expired
drop_expired-HasUniqueKeys now [] u = tt
drop_expired-HasUniqueKeys now (l ∷ locks) u =
    ground
      (arith, drop_expired-HasUniqueKeys now locks u.1, select-drop_expired now l.target locks u.0)

pub perform_lock_cleanup-WellFormed :
    (db : Database) (v : WellFormed db) (now : ℕ) → Keeps (perform_lock_cleanup now db)
unfolding perform_lock_cleanup
perform_lock_cleanup-WellFormed db v now =
    let kept = drop_expired-HasUniqueKeys now db.config_locks v.locks in
    if-elim Keeps (ltb (length (drop_expired now db.config_locks)) (length db.config_locks))
      (relocked db v _ _ kept) (relocked db v _ _ kept)
