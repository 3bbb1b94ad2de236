-- ===== src/Netconf/Sessions/Releases.antt =====
-- The locks of a session of pkg/netconf/session.go when it is closed.
use text.Mathlib.Text.{◌==◌ as str_eq}
use text.Mathlib.TextEquality.{eq_iff}
use arca_router.Prelude.{
  ℕ, true, List, [], ◌∷◌, some, String, Result, ok, err, ◌≡◌, ◌≢◌, refl, sym, ap, ◌∙◌, arith, subst,
  Bool-cases, Result-cases, inl, inr,
}
use arca_router.Datastore.Schema.{ErrorCode, is_lock_target, LockRow, Database, with_tx}
use arca_router.Datastore.Locks.{lock_of, release_lock}
use arca_router.Datastore.Locks.Unlocks.{
  lock_of-Unlocks, release_lock-Unlocks, release_lock_refused,
}
use arca_router.Datastore.WellFormed.{WellFormed, Keeps}
use arca_router.Datastore.Invariant.Locks.{release_lock-WellFormed}
use arca_router.Netconf.Sessions.{Session, has_lock, remove_lock, release_all, close, get_locks}
use arca_router.Netconf.Sessions.Covers.{Covers}

-- After a session is closed: nothing is locked in its name, and nothing new in another's.
pub record Released (id : String) (db db' : Database) : Type 0 where
  pub tables : WellFormed db'
  pub left :
      (t : String) (row : LockRow)
      → lock_of db' t ≡ some row
      → (lock_of db t ≡ some row) × (row.session_id ≢ id)

-- A round of the loop: the lock of that target is not the session's any more.
release_one :
    (now : ℕ) (target id : String) (db : Database)
    → WellFormed db
    → let db' = (with_tx db (release_lock now target id db)).0 in
      (WellFormed db')
      × ((t : String) (row : LockRow)
          → lock_of db' t ≡ some row
          → (lock_of db t ≡ some row)
            × (str_eq target t ≡ true → is_lock_target t ≡ true → row.session_id ≢ id))
release_one now target id db v = elim (Result-cases (release_lock now target id db)) [
  | inl (failure, e) ↦ rw e (
    v,
    λ t row f. (
      f,
      λ here valid.
          let h : target ≡ t = (eq_iff target t).0 here in
          release_lock_refused now target id db row
            (subst (λ x. is_lock_target x ≡ true) (sym h) valid) e (ap (lock_of db) h ∙ f),
    ),
  )
  | inr ((u, db'), e) ↦
      let gone = release_lock-Unlocks now target id db v.locks e in
      let v' : WellFormed db' = subst Keeps e (release_lock-WellFormed db v now target id) in
      rw e (
        v',
        λ t row f.
            let (old, there) = lock_of-Unlocks target db db' gone t row f in
            (old, λ here valid. ground (arith, here, there)),
      )
]

pub marked_id :
    (target : String) (s : Session) (outcome : Result ErrorCode (Unit {0}))
    → (elim outcome as (λ _. Session) [ ok _ ↦ remove_lock target s | err _ ↦ s ]).id ≡ s.id
marked_id target s (ok u) = refl
marked_id target s (err e) = refl

release_all-Releases :
    (now : ℕ) (targets : List String) (s : Session) (db : Database)
    → WellFormed db
    → let db' = (release_all now targets s db).1 in
      (WellFormed db')
      × ((t : String) (row : LockRow)
          → lock_of db' t ≡ some row
          → (lock_of db t ≡ some row)
            × (has_lock t targets ≡ true → is_lock_target t ≡ true → row.session_id ≢ s.id))
unfolding release_all has_lock
release_all-Releases now [] s db v = (v, λ t row f. (f, λ h. ground (arith, h)))
release_all-Releases now (target ∷ targets) s db v =
    let outcome = with_tx db (release_lock now target s.id db) in
    let (v', once) = release_one now target s.id db v in
    let s' : Session = elim outcome.1 [ ok _ ↦ remove_lock target s | err _ ↦ s ] in
    let same : s'.id ≡ s.id = marked_id target s outcome.1 in
    let (v'', rest) = release_all-Releases now targets s' outcome.0 v' in
    (
      v'',
      λ t row f.
          let (mid, later) = rest t row f in
          let (old, first) = once t row mid in
          (
            old,
            λ has valid. elim (Bool-cases (str_eq target t)) [
              | inl here ↦ first here valid
              | inr there ↦ λ mine. later (ground (arith, has, there)) valid (mine ∙ sym same)
            ],
          ),
    )

-- What `sort.Strings` is used for: the same names, in order.
abbrev pub IsSorter : (List String → List String) → Type 0
IsSorter sort = (t : String) (ts : List String) → has_lock t (sort ts) ≡ has_lock t ts

pub close-Released :
    (sort : List String → List String) (now : ℕ) (s : Session) (db : Database)
    → IsSorter sort
    → WellFormed db
    → Covers s db
    → Released s.id db (close sort now s db)
close-Released sort now s db sorts v c =
    let (v', rows) = release_all-Releases now (get_locks sort s) s db v in
    record {
      tables = v';
      left = λ t row f.
          let (old, free) = rows t row f in
          (
            old,
            λ mine.
                let (valid, has) = c t row old mine in
                free (sorts t s.datastore_locks ∙ has) valid mine,
          );
    }
