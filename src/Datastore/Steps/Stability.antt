-- ===== src/Datastore/Steps/Stability.antt =====
-- A lock under any interleaving of the other sessions' calls.
use text.Mathlib.Text.{◌==◌ as str_eq}
use text.Mathlib.TextEquality.{eq_iff}
use arca_router.Prelude.{
  ℕ, false, Option, none, some, String, ok, err, ◌≡◌, sym, ◌∙◌, Bool-cases, Option-cases, inl, inr,
}
use arca_router.Datastore.Table.{select}
use arca_router.Datastore.Schema.{
  lock_target_candidate, LockRow, CommitRequest, RollbackRequest, Database, Tx, with_tx, lock_key,
}
use arca_router.Datastore.Locks.Exclusion.{Holds}
use arca_router.Datastore.Commits.{
  commit, rollback, save_candidate, delete_candidate, release_candidate,
}
use arca_router.Datastore.Commits.Facts.{commit-CommitFacts, rollback-RollbackFacts}
use arca_router.Datastore.WellFormed.{WellFormed}
use arca_router.Datastore.Steps.{
  Call, acquires, releases, extends, steals, cleans, saves, deletes, commits, rollbacks, restarts,
  step,
}
use arca_router.Datastore.Steps.Held.{
  MayEnd, Owned, StillOwned, StillOwned-of, owned, delete-Owned, acquire-StillOwned,
  release-StillOwned, extend-StillOwned, steal-StillOwned, clean-StillOwned,
}

module _ (now : ℕ) (target session : String) (db : Database) (v : WellFormed db)
    (h : Holds now target session db) where
  released_candidate :
      (other : String)
      → ¬ ((target ≡ lock_target_candidate) × (other ≡ session))
      → (lock : LockRow) × (select lock_key target (release_candidate other db.config_locks)
          ≡ some lock)
        × (lock.session_id ≡ session)
  released_candidate other calm =
      delete-Owned now target session db v h lock_target_candidate
        (λ lock. str_eq lock.session_id other)
        λ same. kept ((eq_iff lock_target_candidate target).0 same)
    where
      kept : lock_target_candidate ≡ target → str_eq h.lock.session_id other ≡ false
      kept e = elim (Bool-cases (str_eq h.lock.session_id other)) [
        | inr no_match ↦ no_match
        | inl match ↦
            absurd (calm (sym e, sym ((eq_iff h.lock.session_id other).0 match) ∙ h.owner))
      ]

  commit-StillOwned :
      (id : String) (req : Option CommitRequest)
      → ¬ MayEnd target session (commits id req)
      → StillOwned target session (commit now id req db)
  commit-StillOwned id none calm = unfold commit in tt
  commit-StillOwned id (some req) calm =
      StillOwned-of target session (commit now id (some req) db) λ id' db' e.
        let f = commit-CommitFacts now id req db e in
        rw (f.result, f.wrote.result) (released_candidate req.session_id calm)

  rollback-StillOwned :
      (id : String) (req : Option RollbackRequest)
      → ¬ MayEnd target session (rollbacks id req)
      → StillOwned target session (rollback now id req db)
  rollback-StillOwned id none calm = unfold rollback in tt
  rollback-StillOwned id (some req) calm =
      StillOwned-of target session (rollback now id (some req) db) λ id' db' e.
        let f = rollback-RollbackFacts now id req db e in
        rw (f.result, f.wrote.result) (released_candidate req.session_id calm)

  save-StillOwned :
      (protect : String → Option String) (s text : String)
      → StillOwned target session (save_candidate protect now s text db)
  unfolding save_candidate
  save-StillOwned protect s text = elim (Option-cases (protect text)) [
    | inl e ↦ rw e tt
    | inr (t, e) ↦ rw e (owned now target session db v h)
  ]

  with_tx-Owned :
      {A : Type 0} (r : Tx A) → StillOwned target session r → Owned target session (with_tx db r).0
  with_tx-Owned (ok (a, db')) s = s
  with_tx-Owned (err e) s = owned now target session db v h

-- A lock that has not expired at the time of a call is still its session's after the call, whatever
-- the call is and whether it succeeds, unless it is one of the few that may end it: the session's own
-- release, commit or rollback, a theft of that target, or a restart.
pub step-Owned :
    (protect : String → Option String) (now : ℕ) (target session : String) (db : Database)
    (c : Call)
    → WellFormed db
    → Holds now target session db
    → ¬ MayEnd target session c
    → Owned target session (step protect db (now, c))
unfolding step
step-Owned protect now target session db (acquires req) v h calm =
    with_tx-Owned now target session db v h _ (acquire-StillOwned now target session db v h req)
step-Owned protect now target session db (releases t s) v h calm =
    with_tx-Owned now target session db v h _
      (release-StillOwned now target session db v h t s calm)
step-Owned protect now target session db (extends t s duration) v h calm =
    with_tx-Owned now target session db v h _
      (extend-StillOwned now target session db v h t s duration)
step-Owned protect now target session db (steals req) v h calm =
    with_tx-Owned now target session db v h _ (steal-StillOwned now target session db v h req calm)
step-Owned protect now target session db cleans v h calm =
    with_tx-Owned now target session db v h _ (clean-StillOwned now target session db v h)
step-Owned protect now target session db (saves s text) v h calm =
    with_tx-Owned now target session db v h _
      (save-StillOwned now target session db v h protect s text)
step-Owned protect now target session db (deletes s) v h calm =
    unfold delete_candidate in owned now target session db v h
step-Owned protect now target session db (commits id req) v h calm =
    with_tx-Owned now target session db v h _
      (commit-StillOwned now target session db v h id req calm)
step-Owned protect now target session db (rollbacks id req) v h calm =
    with_tx-Owned now target session db v h _
      (rollback-StillOwned now target session db v h id req calm)
step-Owned protect now target session db restarts v h calm = absurd (calm tt)
