-- ===== src/Datastore/Locks/Exclusion.antt =====
-- One call at a time on the lock of a target.
use text.Mathlib.Text.{◌==◌ as str_eq}
use text.Mathlib.TextEquality.{eq_iff}
use arca_router.Prelude.{
  ℕ, ◌+◌, ◌%◌, ◌<◌, true, false, some, String, ok, err, ◌≡◌, ◌≢◌, refl, ◌∙◌, arith, Bool-cases,
  Option-cases, inl, inr,
}
use arca_router.Datastore.Table.{
  delete, update, insert, HasUniqueKeys, select-insert, select-delete_if, select-update,
}
use arca_router.Datastore.Schema.{
  conflict, is_lock_target, unix, nanoseconds, LockRow, LockRequest, Database, lock_key,
}
use arca_router.Datastore.Locks.{
  lock_of, is_expired, or_default, extended, new_lock, acquire_lock, acquire_new, acquire_over,
  release_lock, release_held, extend_lock, extend_held, get_lock_info, no_lock,
}

-- The session has the target's lock, which has not expired at `now`.
pub record Holds (now : ℕ) (target session_id : String) (db : Database) : Type 0 where
  pub lock : LockRow
  pub found : lock_of db target ≡ some lock
  pub valid : is_expired now lock ≡ false
  pub owner : lock.session_id ≡ session_id

module _ (now : ℕ) (target session_id : String) (db : Database)
    (h : Holds now target session_id db) where
  pub acquire_refused :
      (req : LockRequest)
      → is_lock_target target ≡ true
      → req.target ≡ target
      → req.session_id ≢ session_id
      → acquire_lock now (some req) db ≡ err conflict
  unfolding acquire_lock acquire_over
  acquire_refused req t e other =
      rw (e, t, h.found, h.valid) (ground (arith, eq_iff h.lock.session_id req.session_id, h.owner))

  pub release_refused :
      (session : String)
      → is_lock_target target ≡ true
      → session ≢ session_id
      → release_lock now target session db ≡ err conflict
  unfolding release_lock release_held
  release_refused session t other =
      rw (t, h.found, h.valid) (ground (arith, eq_iff h.lock.session_id session, h.owner))

  extend_refused :
      (session : String) (duration : ℕ)
      → is_lock_target target ≡ true
      → session ≢ session_id
      → extend_lock now target session duration db ≡ err conflict
  unfolding extend_lock extend_held
  extend_refused session duration t other =
      rw (t, h.found, h.valid) (ground (arith, eq_iff h.lock.session_id session, h.owner))

-- While a session holds a lock that has not expired, every other session is refused with a conflict
-- when it tries to acquire, release or extend it.
pub refused :
    (now : ℕ) (target owner other user : String) (timeout : ℕ) (db : Database)
    → is_lock_target target ≡ true
    → Holds now target owner db
    → other ≢ owner
    → (acquire_lock now
          (some (record { target = target; session_id = other; user = user; timeout = timeout }))
          db
        ≡ err conflict)
      × (release_lock now target other db ≡ err conflict)
      × (extend_lock now target other timeout db ≡ err conflict)
refused now target owner other user timeout db t h ne = (
  acquire_refused now target owner db h _ t refl ne,
  release_refused now target owner db h other t ne,
  extend_refused now target owner db h other timeout t ne,
)

-- What `AcquireLock` leaves behind where it succeeds.
pub record Acquired (now : ℕ) (req : LockRequest) (db db' : Database) : Type 0 where
  pub lock : LockRow
  pub found : lock_of db' req.target ≡ some lock
  pub owner : lock.session_id ≡ req.session_id
  pub term : lock.expires_at ≡ unix (now + or_default req.timeout)
  pub others : (t : String) → t ≢ req.target → lock_of db' t ≡ lock_of db t

acquire_new-Acquired :
    (now : ℕ) (req : LockRequest) (db : Database) {db' : Database}
    → acquire_new now req db ≡ ok (tt, db')
    → Acquired now req db db'
unfolding acquire_new
acquire_new-Acquired now req db h =
    let row = new_lock now req in
    elim (Option-cases (insert lock_key row db.config_locks)) [
      | inl e ↦ absurd (ground arith)
      | inr (locks, e) ↦
          let law = λ (t : String). (select-insert lock_key t row db.config_locks e).1 in
          record {
            lock = row;
            found = ground (arith, law req.target, eq_iff req.target req.target);
            owner = refl;
            term = refl;
            others = λ t ne. ground (arith, law t, eq_iff req.target t);
          }
    ]

-- The lock of `req` itself, with the same session, is extended in place.
extended-Acquired :
    (now : ℕ) (req : LockRequest) (lock : LockRow) (db : Database) {db' : Database}
    → lock_of db req.target ≡ some lock
    → lock.session_id ≡ req.session_id
    → db'.config_locks
      ≡ update lock_key req.target (extended now (or_default req.timeout)) db.config_locks
    → Acquired now req db db'
extended-Acquired now req lock db found owner e =
    let law = λ (t : String).
      select-update lock_key req.target t (extended now (or_default req.timeout)) db.config_locks
        (λ r. refl) in
    record {
      lock = extended now (or_default req.timeout) lock;
      found = rw (e, law req.target, found) (ground (arith, eq_iff req.target req.target));
      owner = owner;
      term = refl;
      others = λ t ne. rw (e, law t) (ground (arith, eq_iff req.target t));
    }

cleared-Acquired :
    (now : ℕ) (req : LockRequest) (db : Database) {db' : Database}
    → HasUniqueKeys lock_key db.config_locks
    → acquire_new now req (record db { config_locks = delete lock_key req.target db.config_locks })
      ≡ ok (tt, db')
    → Acquired now req db db'
cleared-Acquired now req db u h =
    let a = acquire_new-Acquired now req _ h in
    let law =
      λ (t : String). select-delete_if lock_key req.target t (λ _. true) db.config_locks u in
    record {
      lock = a.lock;
      found = a.found;
      owner = a.owner;
      term = a.term;
      others = λ t ne. a.others t ne ∙ law t ∙ ground (arith, eq_iff req.target t);
    }

acquire_over-Acquired :
    (now : ℕ) (req : LockRequest) (lock : LockRow) (db : Database) {db' : Database}
    → HasUniqueKeys lock_key db.config_locks
    → lock_of db req.target ≡ some lock
    → acquire_over now req lock db ≡ ok (tt, db')
    → Acquired now req db db'
unfolding acquire_over
acquire_over-Acquired now req lock db u found h = elim (Bool-cases (is_expired now lock)) [
  | inl gone ↦ cleared-Acquired now req db u (ground arith)
  | inr valid ↦ elim (Bool-cases (str_eq lock.session_id req.session_id)) [
    | inl own ↦
        extended-Acquired now req lock db found ((eq_iff lock.session_id req.session_id).0 own)
          (ground arith)
    | inr other ↦ absurd (ground arith)
  ]
]

pub acquire_lock-Acquired :
    (now : ℕ) (req : LockRequest) (db : Database) {db' : Database}
    → HasUniqueKeys lock_key db.config_locks
    → acquire_lock now (some req) db ≡ ok (tt, db')
    → Acquired now req db db'
unfolding acquire_lock
acquire_lock-Acquired now req db u h = elim (Option-cases (lock_of db req.target)) [
  | inl e ↦ acquire_new-Acquired now req db (ground arith)
  | inr (lock, e) ↦ acquire_over-Acquired now req lock db u e (ground arith)
]

-- In the second in which a lock expires `GetLockInfo` reports it as free, once that second has
-- begun, though every other session is still refused the lock.
pub get_lock_info_early :
    (now : ℕ) (target owner other user : String) (timeout : ℕ) (db : Database)
    → is_lock_target target ≡ true
    → (h : Holds now target owner db) → h.lock.expires_at ≡ unix now
    → 0 < now % nanoseconds
    → other ≢ owner
    → (get_lock_info now target db ≡ ok no_lock)
      × (acquire_lock now
            (some (record { target = target; session_id = other; user = user; timeout = timeout }))
            db
          ≡ err conflict)
unfolding get_lock_info
get_lock_info_early now target owner other user timeout db t h last within ne =
    (rw (t, h.found) (ground arith), acquire_refused now target owner db h _ t refl ne)
