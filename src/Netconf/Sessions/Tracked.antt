-- ===== src/Netconf/Sessions/Tracked.antt =====
-- The sessions of pkg/netconf/session.go and the locks of pkg/datastore together.
use text.Mathlib.Text.{◌==◌ as str_eq}
use text.Mathlib.TextEquality.{eq_iff}
use arca_router.Prelude.{
  ℕ, true, List, none, some, String, ◌≡◌, refl, sym, ap, ◌∙◌, arith, ne_of_str_eq, Bool-cases, inl,
  inr,
}
use arca_router.Datastore.Table.{
  select, delete, update, replace, HasUniqueKeys, select-delete_if, select-update, select-replace,
  delete_if-HasUniqueKeys, update-HasUniqueKeys, replace-HasUniqueKeys, select-update_row,
  update_row-HasUniqueKeys,
}
use arca_router.Datastore.Schema.{is_lock_target, LockRow, Database}
use arca_router.Datastore.Locks.{lock_of}
use arca_router.Datastore.WellFormed.{WellFormed}
use arca_router.Netconf.Sessions.{Session, session_key, has_lock, touch}
use arca_router.Netconf.Sessions.Covers.{Covers, Serves}
use arca_router.Netconf.Sessions.Releases.{Released}

-- A lock in the tables is on a lock target and belongs to a session of the manager that tracks it.
abbrev pub Tracked : List Session → Database → Type 0
Tracked sessions db =
    (t : String) (row : LockRow)
    → lock_of db t ≡ some row
    → (is_lock_target t ≡ true)
      × ((s : Session) × (select session_key row.session_id sessions ≡ some s)
          × (has_lock t s.datastore_locks ≡ true))

pub record Consistent (sessions : List Session) (db : Database) : Type 0 where
  pub unique : HasUniqueKeys session_key sessions
  pub tables : WellFormed db
  pub tracked : Tracked sessions db

module _ (sessions : List Session) (db : Database) (k : Consistent sessions db) where
  pub live-Covers : (s : Session) → select session_key s.id sessions ≡ some s → Covers s db
  live-Covers s live t row f mine =
      let (valid, (s', found, has)) = k.tracked t row f in
      let same : some s' ≡ some s =
        sym found ∙ (ap (λ id. select session_key id sessions) mine ∙ live) in
      (valid, cc (same, has))

  -- A request of a session, with the object of the session changed.
  pub served-Consistent :
      (s s' : Session) (db' : Database)
      → select session_key s.id sessions ≡ some s
      → Serves s db s' db'
      → Consistent (update session_key s'.id (λ _. s') sessions) db'
  served-Consistent s s' db' live h = record {
    unique = update_row-HasUniqueKeys session_key s' sessions k.unique;
    tables = h.tables;
    tracked = λ t row f.
        let law = select-update_row session_key row.session_id s' sessions in
        elim (Bool-cases (str_eq s'.id row.session_id)) [
          | inl here ↦
              let mine : s'.id ≡ row.session_id = (eq_iff s'.id row.session_id).0 here in
              let (valid, has) = h.covers t row f (sym mine) in
              let there : select session_key row.session_id sessions ≡ some s =
                ap (λ id. select session_key id sessions) (sym mine ∙ h.same) ∙ live in
              (valid, (s', law ∙ ground (arith, here, there), has))
          | inr other ↦
              let ne = (ne_of_str_eq s'.id row.session_id other).1 in
              let old = h.spares t row f (λ e. ne (e ∙ sym h.same)) in
              let (valid, (s'', found, has)) = k.tracked t row old in
              (valid, (s'', law ∙ ground (arith, other, found), has))
        ];
  }

  pub closed-Consistent :
      (s : Session) (db' : Database)
      → Released s.id db db'
      → Consistent (delete session_key s.id sessions) db'
  closed-Consistent s db' h = record {
    unique = delete_if-HasUniqueKeys session_key s.id (λ _. true) sessions k.unique;
    tables = h.tables;
    tracked = λ t row f.
        let (old, other) = h.left t row f in
        let (valid, (s', found, has)) = k.tracked t row old in
        let law = select-delete_if session_key s.id row.session_id (λ _. true) sessions k.unique in
        (valid, (s', law ∙ ground (arith, found, other, eq_iff s.id row.session_id), has));
  }

  -- A new session under a fresh name.
  pub created-Consistent :
      (s : Session)
      → select session_key s.id sessions ≡ none
      → Consistent (replace session_key s sessions) db
  created-Consistent s fresh = record {
    unique = replace-HasUniqueKeys session_key s sessions k.unique;
    tables = k.tables;
    tracked = λ t row f.
        let (valid, (s', found, has)) = k.tracked t row f in
        let law = select-replace session_key row.session_id s sessions k.unique in
        let e : select session_key row.session_id (replace session_key s sessions) ≡ some s' =
          law ∙ ground (arith, found, fresh, eq_iff s.id row.session_id) in
        (valid, (s', e, has));
  }

  pub touched-Consistent :
      (now : ℕ) (id : String) → Consistent (update session_key id (touch now) sessions) db
  touched-Consistent now id = record {
    unique = update-HasUniqueKeys session_key id (touch now) sessions (λ r. refl) k.unique;
    tables = k.tables;
    tracked = λ t row f.
        let (valid, (s', found, has)) = k.tracked t row f in
        let law = select-update session_key id row.session_id (touch now) sessions (λ r. refl) in
        elim (Bool-cases (str_eq id row.session_id)) [
          | inl here ↦ (valid, (touch now s', law ∙ ground (arith, here, found), has))
          | inr there ↦ (valid, (s', law ∙ ground (arith, there, found), has))
        ];
  }
