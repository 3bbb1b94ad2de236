-- ===== src/Datastore/Steps/Held.antt =====
-- A lock under the lock calls of other sessions, and under the clean-up.
use text.Mathlib.Text.{◌==◌ as str_eq}
use text.Mathlib.TextEquality.{eq_iff}
use arca_router.Prelude.{
  ℕ, Bool, true, false, not, List, [], ◌∷◌, Option, none, some, String, ok, err, ◌≡◌, ◌≢◌, refl,
  sym, ap, ◌∙◌, arith, ltb, if-elim, ne_of_str_eq, Bool-cases, Option-cases, inl, inr, length,
}
use arca_router.Datastore.Table.{
  select, delete_if, update, select-delete_if, select-update, select-replace,
}
use arca_router.Datastore.Schema.{
  is_lock_target, lock_target_candidate, LockRow, LockRequest, StealLockRequest, Database, Tx,
  lock_key,
}
use arca_router.Datastore.Locks.{
  lock_of, is_expired, or_default, extended, stolen_lock, acquire_lock, release_lock, release_held,
  extend_lock, extend_held, steal_lock, drop_expired, perform_lock_cleanup,
}
use arca_router.Datastore.Locks.Exclusion.{
  Holds, acquire_refused, release_refused, acquire_lock-Acquired,
}
use arca_router.Datastore.WellFormed.{WellFormed}
use arca_router.Datastore.Steps.{Call, releases, steals, commits, rollbacks, restarts}

-- The calls that may take the lock of `target` from `session`: its own release, commit or rollback, a
-- theft of that target, and a restart of the daemon.
abbrev pub MayEnd : String → String → Call → Type 0
MayEnd target session (releases t s) = (t ≡ target) × (s ≡ session)
MayEnd target session (steals req) = req.target ≡ target
MayEnd target session (commits id (some req)) =
    (target ≡ lock_target_candidate) × (req.session_id ≡ session)
MayEnd target session (rollbacks id (some req)) =
    (target ≡ lock_target_candidate) × (req.session_id ≡ session)
MayEnd target session restarts = Unit
MayEnd target session _ = ⊥

abbrev pub Owned : String → String → Database → Type 0
Owned target session db =
    (lock : LockRow) × (lock_of db target ≡ some lock) × (lock.session_id ≡ session)

abbrev pub StillOwned : {A : Type 0} → String → String → Tx A → Type 0
StillOwned target session (ok (a, db)) = Owned target session db
StillOwned target session (err e) = Unit {0}

pub StillOwned-of :
    {A : Type 0} (target session : String) (r : Tx A)
    → ((a : A) (db : Database) → r ≡ ok (a, db) → Owned target session db)
    → StillOwned target session r
StillOwned-of target session (ok (a, db)) h = h a db refl
StillOwned-of target session (err e) h = tt

acquire_lock-target :
    (now : ℕ) (req : LockRequest) (db : Database) {db' : Database}
    → acquire_lock now (some req) db ≡ ok (tt, db')
    → is_lock_target req.target ≡ true
unfolding acquire_lock
acquire_lock-target now req db e = ground arith

release_lock-target :
    (now : ℕ) (t s : String) (db : Database) {db' : Database}
    → release_lock now t s db ≡ ok (tt, db')
    → is_lock_target t ≡ true
unfolding release_lock
release_lock-target now t s db e = ground arith

select-drop_expired :
    (now : ℕ) (k : String) (locks : List LockRow) (lock : LockRow)
    → select lock_key k locks ≡ some lock
    → is_expired now lock ≡ false
    → select lock_key k (drop_expired now locks) ≡ some lock
unfolding select drop_expired
select-drop_expired now k [] lock h valid = h
select-drop_expired now k (l ∷ locks) lock h valid =
    ground (arith, select-drop_expired now k locks lock)

module _ (now : ℕ) (target session : String) (db : Database) (v : WellFormed db)
    (h : Holds now target session db) where
  pub owned : Owned target session db
  owned = (h.lock, h.found, h.owner)

  -- The locks after an update of one target's row.
  update-Owned :
      (t : String) (duration : ℕ)
      → (lock : LockRow) × (select lock_key target
            (update lock_key t (extended now duration) db.config_locks)
          ≡ some lock)
        × (lock.session_id ≡ session)
  update-Owned t duration =
      let law =
        select-update lock_key t target (extended now duration) db.config_locks (λ r. refl) in
      elim (Bool-cases (str_eq t target)) [
        | inl same ↦ (extended now duration h.lock, rw (law, same, h.found) refl, h.owner)
        | inr other ↦ (h.lock, rw (law, other, h.found) refl, h.owner)
      ]

  pub delete-Owned :
      (t : String) (also : LockRow → Bool)
      → (str_eq t target ≡ true → also h.lock ≡ false)
      → (lock : LockRow) × (select lock_key target (delete_if lock_key t also db.config_locks)
          ≡ some lock)
        × (lock.session_id ≡ session)
  delete-Owned t also keep =
      let law = select-delete_if lock_key t target also db.config_locks v.locks in
      (h.lock, rw (law, h.found) (ground (arith, keep)), h.owner)

  acquire_own :
      (req : LockRequest) {db' : Database}
      → req.target ≡ target
      → acquire_lock now (some req) db ≡ ok (tt, db')
      → Owned target session db'
  acquire_own req {db'} same e =
      let a = acquire_lock-Acquired now req db v.locks e in
      let t = acquire_lock-target now req db e in
      elim (Bool-cases (str_eq req.session_id session)) [
        | inl own ↦ (
          a.lock,
          ap (lock_of db') (sym same) ∙ a.found,
          a.owner ∙ (eq_iff req.session_id session).0 own,
        )
        | inr other ↦
            let ne = (ne_of_str_eq req.session_id session other).0 in
            cc (acquire_refused now target session db h req (rw (← same) t) same ne)
      ]

  pub acquire-StillOwned :
      (req : Option LockRequest) → StillOwned target session (acquire_lock now req db)
  acquire-StillOwned none = unfold acquire_lock in tt
  acquire-StillOwned (some req) =
      StillOwned-of target session (acquire_lock now (some req) db) λ u db' e.
        elim (Bool-cases (str_eq req.target target)) [
          | inl same ↦ acquire_own req ((eq_iff req.target target).0 same) e
          | inr other ↦
              let ne = (ne_of_str_eq req.target target other).1 in
              (
                h.lock,
                (acquire_lock-Acquired now req db v.locks e).others target ne ∙ h.found,
                h.owner,
              )
        ]

  release_own :
      (t s : String) (db' : Database)
      → t ≡ target
      → ¬ MayEnd target session (releases t s)
      → release_lock now t s db ≢ ok (tt, db')
  release_own t s db' same calm e =
      let valid_target = release_lock-target now t s db e in
      let refusal =
        release_refused now target session db h s (rw (← same) valid_target)
          (λ x. calm (same, x)) in
      cc (ap (λ x. release_lock now x s db) same, refusal)

  release_other :
      (t s : String) → str_eq t target ≡ false → StillOwned target session (release_lock now t s db)
  unfolding release_lock release_held
  release_other t s other =
      let kept = delete-Owned t (λ _. true) (λ x. cc) in
      elim (Option-cases (lock_of db t)) [
        | inl e ↦ rw e (if-elim (StillOwned target session) (is_lock_target t) owned tt)
        | inr (lock, e) ↦ rw e (
            if-elim (StillOwned target session) (is_lock_target t)
              (if-elim (StillOwned target session) (is_expired now lock) kept
                (if-elim (StillOwned target session) (not (str_eq lock.session_id s)) tt kept))
              tt)
      ]

  pub release-StillOwned :
      (t s : String)
      → ¬ MayEnd target session (releases t s)
      → StillOwned target session (release_lock now t s db)
  release-StillOwned t s calm = elim (Bool-cases (str_eq t target)) [
    | inl same ↦
        StillOwned-of target session (release_lock now t s db)
          λ u db' e. absurd (release_own t s db' ((eq_iff t target).0 same) calm e)
    | inr other ↦ release_other t s other
  ]

  pub extend-StillOwned :
      (t s : String) (duration : ℕ) → StillOwned target session (extend_lock now t s duration db)
  unfolding extend_lock extend_held
  extend-StillOwned t s duration = elim (Option-cases (lock_of db t)) [
    | inl e ↦ rw e (if-elim (StillOwned target session) (is_lock_target t) tt tt)
    | inr (lock, e) ↦ rw e (
        if-elim (StillOwned target session) (is_lock_target t)
          (if-elim (StillOwned target session) (is_expired now lock) tt (
            if-elim (StillOwned target session) (not (str_eq lock.session_id s)) tt
              (update-Owned t (or_default duration))))
          tt)
  ]

  pub steal-StillOwned :
      (req : StealLockRequest)
      → ¬ MayEnd target session (steals req)
      → StillOwned target session (steal_lock now req db)
  unfolding steal_lock
  steal-StillOwned req calm =
      let law = select-replace lock_key target (stolen_lock now req) db.config_locks v.locks in
      if-elim (StillOwned target session) (is_lock_target req.target)
        (h.lock, rw (law, h.found) (ground (arith, calm, eq_iff req.target target)), h.owner) tt

  pub clean-StillOwned : StillOwned target session (perform_lock_cleanup now db)
  unfolding perform_lock_cleanup
  clean-StillOwned =
      let kept : (lock : LockRow) × (select lock_key target (drop_expired now db.config_locks)
            ≡ some lock)
          × (lock.session_id ≡ session) =
        (h.lock, select-drop_expired now target db.config_locks h.lock h.found h.valid, h.owner) in
      if-elim (StillOwned target session)
        (ltb (length (drop_expired now db.config_locks)) (length db.config_locks)) kept kept
