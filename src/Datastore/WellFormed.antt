-- ===== src/Datastore/WellFormed.antt =====
-- The invariant of the tables.
use arca_router.Prelude.{ℕ, true, false, List, [], ◌∷◌, some, String, ok, err, ◌≡◌, refl}
use arca_router.Datastore.Table.{
  select, delete, update, HasUniqueKeys, delete_if-HasUniqueKeys, update-HasUniqueKeys,
}
use arca_router.Datastore.Schema.{
  AuditRow, LockRow, RunningRow, HistoryRow, Database, Tx, lock_key, candidate_key, running_key,
  history_key,
}
use arca_router.Datastore.Locks.{extended}
use arca_router.Datastore.Commits.{has_current}

abbrev pub HasOneCurrent : List RunningRow → Type 0
HasOneCurrent [] = Unit {0}
HasOneCurrent (r ∷ rs) = (r.is_current ≡ true → has_current rs ≡ false) × HasOneCurrent rs

-- A configuration is current as soon as one has been committed.
abbrev pub HasCurrent : List RunningRow → Type 0
HasCurrent [] = Unit {0}
HasCurrent (r ∷ rs) = has_current (r ∷ rs) ≡ true

-- Every configuration that ran stands in the history under its commit id, with its text.
abbrev pub IsRecorded : List HistoryRow → List RunningRow → Type 0
IsRecorded history [] = Unit {0}
IsRecorded history (r ∷ rs) =
    ((e : HistoryRow) × (select history_key r.commit_id history ≡ some e)
      × (e.config_text ≡ r.config_text))
    × IsRecorded history rs

pub record WellFormed (db : Database) : Type 0 where
  pub locks : HasUniqueKeys lock_key db.config_locks
  pub candidates : HasUniqueKeys candidate_key db.candidate_configs
  pub running : HasUniqueKeys running_key db.running_config
  pub history : HasUniqueKeys history_key db.commit_history
  pub one_current : HasOneCurrent db.running_config
  pub current : HasCurrent db.running_config
  pub recorded : IsRecorded db.commit_history db.running_config

-- A transaction leaves well-formed tables.
abbrev pub Keeps : {A : Type 0} → Tx A → Type 0
Keeps (ok (a, db)) = WellFormed db
Keeps (err e) = Unit {0}

-- Only the locks and the audit log change.
module _ (db : Database) (v : WellFormed db) where
  pub relocked :
      (locks : List LockRow) (audit : List AuditRow)
      → HasUniqueKeys lock_key locks
      → WellFormed (record db { config_locks = locks; audit_log = audit })
  relocked locks audit u = record {
    locks = u;
    candidates = v.candidates;
    running = v.running;
    history = v.history;
    one_current = v.one_current;
    current = v.current;
    recorded = v.recorded;
  }

  pub deleted : (target : String) → HasUniqueKeys lock_key (delete lock_key target db.config_locks)
  deleted target = delete_if-HasUniqueKeys lock_key target (λ _. true) db.config_locks v.locks

  pub extended_unique :
      (target : String) (now duration : ℕ)
      → HasUniqueKeys lock_key (update lock_key target (extended now duration) db.config_locks)
  extended_unique target now duration =
      update-HasUniqueKeys lock_key target (extended now duration) db.config_locks (λ r. refl)
        v.locks
