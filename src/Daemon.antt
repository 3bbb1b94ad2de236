-- ===== src/Daemon.antt =====
-- `newNETCONFCommitHook` of cmd/arca-routerd/main.go: a NETCONF commit goes through the engine and then
-- into the datastore. `read` parses the text of the candidate, checks it and converts it; both checks
-- answer with one error here.
pub mod Agreement
pub mod Branches
mod Hook
mod Tests
use arca_router.Prelude.{ℕ, Bool, Option, none, some, String, Result, ok, err, if◌then◌else◌}
use arca_router.Datastore.Schema.{ErrorCode, Database}
use arca_router.Engine.{ConfigModel, Engine, EngineError, validate, apply, running_config}

pub data HookError : Type 0 where
  invalid_text no_changes : HookError
  refused : EngineError → HookError
  -- The error of the datastore, and that of the way back, if it failed too.
  not_persisted : ErrorCode → Option EngineError → HookError

abbrev pub error_of : Result EngineError (Unit {0}) → Option EngineError
error_of (ok _) = none
error_of (err e) = some e

-- What the hook leaves: its answer, the engine, the system and the tables.
abbrev pub Outcome : Type 0 → Type 0 → Type 0 → Type 0
Outcome C D S = Result HookError String × Engine C D S × S × Database

-- The configuration of `beforeSnap`, or an empty one.
abbrev pub config_before : {C D S : Type 0} → ConfigModel C D → C → Engine C D S → C
config_before model new_router_config engine = elim (running_config model engine) [
  | none ↦ new_router_config
  | some c ↦ c
]

module _ {C D S : Type 0} (model : ConfigModel C D) (read : String → Option C)
    (new_router_config : C) (now : ℕ) (user message : String)
    (persist : Database → Database × Result ErrorCode String) where
  -- `rollbackEngineToSnapshot`
  unfoldable pub rollback_to :
      C → Engine C D S → S → Result EngineError (Unit {0}) × (Engine C D S × S)
  rollback_to before engine system =
      apply model now (some before) user "rollback failed NETCONF commit persistence" engine system

  abbrev pub after_rollback :
      Database → ErrorCode → Result EngineError (Unit {0}) × (Engine C D S × S) → Outcome C D S
  after_rollback db e (answer, (engine, system)) =
      (err (not_persisted e (error_of answer)), engine, system, db)

  abbrev pub after_persist :
      C → Engine C D S → S → Database × Result ErrorCode String → Outcome C D S
  after_persist before engine system (db, ok id) = (ok id, engine, system, db)
  after_persist before engine system (db, err e) =
      after_rollback db e (rollback_to before engine system)

  abbrev pub after_apply :
      C → Database → Result EngineError (Unit {0}) × (Engine C D S × S) → Outcome C D S
  after_apply before db (err e, (engine, system)) = (err (refused e), engine, system, db)
  after_apply before db (ok _, (engine, system)) = after_persist before engine system (persist db)

  abbrev pub after_validate :
      C → Engine C D S → S → Database → Result EngineError (Unit {0}) → Outcome C D S
  after_validate config engine system db (err e) = (err (refused e), engine, system, db)
  after_validate config engine system db (ok _) =
      if model.has_changes (model.compute_diff (running_config model engine) config)
      then after_apply (config_before model new_router_config engine) db
          (apply model now (some config) user message engine system)
      else (err no_changes, engine, system, db)

  unfoldable pub commit_hook : String → Engine C D S → S → Database → Outcome C D S
  commit_hook text engine system db = elim (read text) [
    | none ↦ (err invalid_text, engine, system, db)
    | some config ↦
        after_validate config engine system db (validate model (some config) engine system)
  ]
