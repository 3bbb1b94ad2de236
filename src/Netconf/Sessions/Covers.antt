-- ===== src/Netconf/Sessions/Covers.antt =====
-- One session of pkg/netconf/session.go and the locks that pkg/datastore gives it.
use text.Mathlib.Text.{◌==◌ as str_eq}
use text.Mathlib.TextEquality.{eq_iff}
use arca_router.Prelude.{
  ℕ, true, false, ◌||◌, List, [], ◌∷◌, some, String, ok, ◌≡◌, ◌≢◌, refl, sym, ap, ◌∙◌, arith, subst,
  ne_of_str_eq, Bool-cases, inl, inr,
}
use arca_router.Datastore.Schema.{is_lock_target, LockRow, LockRequest, Database}
use arca_router.Datastore.Locks.{lock_of, acquire_lock}
use arca_router.Datastore.Locks.Exclusion.{acquire_lock-Acquired}
use arca_router.Datastore.Locks.Unlocks.{Unlocks, lock_of-Unlocks}
use arca_router.Datastore.WellFormed.{WellFormed, Keeps}
use arca_router.Datastore.Invariant.Locks.{acquire_lock-WellFormed}
use arca_router.Netconf.Sessions.{Session, has_lock, add_lock, without, remove_lock}

pub has_lock-add_lock :
    (t target : String) (s : Session)
    → has_lock t (add_lock target s).datastore_locks
      ≡ (str_eq target t || has_lock t s.datastore_locks)
unfolding has_lock add_lock
has_lock-add_lock t target s = ground (arith, eq_iff target t)

has_lock-without :
    (t target : String) (ts : List String)
    → str_eq target t ≡ false
    → has_lock t (without target ts) ≡ has_lock t ts
unfolding has_lock without
has_lock-without t target [] other = refl
has_lock-without t target (u ∷ ts) other =
    ground (arith, has_lock-without t target ts other, eq_iff u target, eq_iff u t, eq_iff target t)

-- The session tracks every lock that is in its name.
abbrev pub Covers : Session → Database → Type 0
Covers s db =
    (t : String) (row : LockRow)
    → lock_of db t ≡ some row
    → row.session_id ≡ s.id
    → (is_lock_target t ≡ true) × (has_lock t s.datastore_locks ≡ true)

-- What is locked afterwards in another name was locked before.
abbrev pub Spares : String → Database → Database → Type 0
Spares id db db' =
    (t : String) (row : LockRow)
    → lock_of db' t ≡ some row
    → row.session_id ≢ id
    → lock_of db t ≡ some row

-- What a request leaves of its session and of the tables.
pub record Serves (s : Session) (db : Database) (s' : Session) (db' : Database) : Type 0 where
  pub same : s'.id ≡ s.id
  pub tables : WellFormed db'
  pub covers : Covers s' db'
  pub spares : Spares s.id db db'

module _ (s : Session) (db : Database) (v : WellFormed db) (c : Covers s db) where
  pub nothing_done : Serves s db s db
  nothing_done = record { same = refl; tables = v; covers = c; spares = λ t row f other. f }

  pub locks_kept :
      (db' : Database) → WellFormed db' → db'.config_locks ≡ db.config_locks → Serves s db s db'
  locks_kept db' v' same =
      let back =
        λ (t : String). ap (λ locks. lock_of (record db { config_locks = locks }) t) same in
      record {
        same = refl;
        tables = v';
        covers = λ t row f own. c t row (sym (back t) ∙ f) own;
        spares = λ t row f other. sym (back t) ∙ f;
      }

  pub lock_added :
      (now : ℕ) (req : LockRequest) {db' : Database}
      → req.session_id ≡ s.id
      → is_lock_target req.target ≡ true
      → acquire_lock now (some req) db ≡ ok (tt, db')
      → Serves s db (add_lock req.target s) db'
  unfolding add_lock
  lock_added now req {db'} own valid e =
      let a = acquire_lock-Acquired now req db v.locks e in
      let at = λ (t : String). Bool-cases (str_eq req.target t) in
      record {
        same = refl;
        tables = subst Keeps e (acquire_lock-WellFormed db v now (some req));
        covers = λ t row f mine. elim (at t) [
          | inl here ↦
              let h : req.target ≡ t = (eq_iff req.target t).0 here in
              (
                subst (λ x. is_lock_target x ≡ true) h valid,
                has_lock-add_lock t req.target s ∙ ground (arith, here),
              )
          | inr there ↦
              let old = c t row (sym (a.others t (ne_of_str_eq req.target t there).1) ∙ f) mine in
              (old.0, has_lock-add_lock t req.target s ∙ ground (arith, old.1))
        ];
        spares = λ t row f other. elim (at t) [
          | inl here ↦
              let h : req.target ≡ t = (eq_iff req.target t).0 here in
              let mine : some a.lock ≡ some row = sym a.found ∙ (ap (lock_of db') h ∙ f) in
              absurd (other (cc (mine, a.owner, own)))
          | inr there ↦ sym (a.others t (ne_of_str_eq req.target t there).1) ∙ f
        ];
      }

  module _ (target : String) (db' : Database) (v' : WellFormed db')
      (u : Unlocks target db db') where
    still :
        (t : String) (row : LockRow)
        → lock_of db' t ≡ some row
        → (lock_of db t ≡ some row) × (str_eq target t ≡ false)
    still = lock_of-Unlocks target db db' u

    pub lock_gone : Serves s db s db'
    lock_gone = record {
      same = refl;
      tables = v';
      covers = λ t row f mine. c t row (still t row f).0 mine;
      spares = λ t row f other. (still t row f).0;
    }

    pub lock_removed : Serves s db (remove_lock target s) db'
    lock_removed = record {
      same = refl;
      tables = v';
      covers = λ t row f mine.
          let (old, there) = still t row f in
          let (valid, has) = c t row old mine in
          (valid, has_lock-without t target s.datastore_locks there ∙ has);
      spares = λ t row f other. (still t row f).0;
    }
