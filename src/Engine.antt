-- ===== src/Engine.antt =====
-- internal/engine/engine.go: the configuration engine, over plugins as internal/engine/plugin.go
-- asks for them. `C` stands for configurations, `D` for their differences and `S` for what the
-- plugins act on, the forwarding plane and the routing daemons. Configurations are values here, so
-- the copies that `Clone` makes are the value itself; the engine's locks make each call one step.
mod Rollback
mod Transaction
pub mod Outcome
pub mod Diff
pub mod Idempotent
mod Tests
use Prim.Native.String.{◌++◌ as str_append}
use arca_router.Prelude.{
  ℕ, ◌+◌, ◌%◌, ◌^◌, Bool, true, false, List, [], ◌∷◌, Option, none, some, String, if◌then◌else◌,
  Bytes, ◌>>=◌, Result, ok, err,
}

-- What the engine needs of configurations: their own check, the difference between the running one
-- (none at first) and a candidate, and the hash of a snapshot.
pub record ConfigModel (C D : Type 0) : Type 0 where
  pub validate_config : C → Option String
  pub compute_diff : Option C → C → D
  pub has_changes : D → Bool
  pub hash : C → Bytes

-- A plugin looks at the system or changes it; `none` is a nil error. The system after a call is
-- there on failure too, since a plugin may fail half way.
pub record Plugin (D S : Type 0) : Type 0 where
  pub name : String
  pub validate_changes : D → S → Option String
  pub apply_changes : D → S → Option String × S
  pub rollback_changes : D → S → Option String × S

pub record ConfigSnapshot (C : Type 0) : Type 0 where
  pub version : ℕ
  pub config : C
  pub hash : Bytes
  pub author : String
  pub message : String
  pub created_at : ℕ

pub record ApplyError : Type 0 where
  pub plugin : String
  pub phase : String
  pub rollback_attempted : Bool
  pub rollback_succeeded : Bool
  pub rollback_diagnostics : List String
  pub cause : String

pub data EngineError : Type 0 where
  nil_config : EngineError
  config_invalid : String → EngineError
  plugin_invalid : String → String → EngineError
  apply_failed : ApplyError → EngineError

pub record Engine (C D S : Type 0) : Type 0 where
  pub running : Option (ConfigSnapshot C)
  pub plugins : List (Plugin D S)
  pub version : ℕ

pub new_engine : {C D S : Type 0} → List (Plugin D S) → Engine C D S
new_engine plugins = record { running = none; plugins = plugins; version = 0 }

abbrev pub no_failures : List String → Bool
no_failures [] = true
no_failures (_ ∷ _) = false

module _ {D S : Type 0} where
  -- `transaction.rollback` over the plugins that `Apply` called, the last one first, with the
  -- messages of the plugins that failed.
  unfoldable pub rollback : D → List (Plugin D S) → S → List String × S
  rollback diff [] system = ([], system)
  rollback diff (p ∷ applied) system =
      let undone = p.rollback_changes diff system in
      let rest = rollback diff applied undone.1 in
      elim undone.0 [
        | none ↦ rest
        | some failure ↦ (
          str_append "plugin " (str_append p.name (str_append " rollback failed: " failure))
              ∷ rest.0,
          rest.1,
        )
      ]

  abbrev pub apply_error : Plugin D S → String → List String → ApplyError
  apply_error p failure diagnostics = record {
    plugin = p.name;
    phase = "apply";
    rollback_attempted = true;
    rollback_succeeded = no_failures diagnostics;
    rollback_diagnostics = diagnostics;
    cause = failure;
  }

  -- Phase 2 of `Apply`. `applied` is `tx.applied` with the newest plugin in front.
  unfoldable pub apply_plugins :
      D → List (Plugin D S) → List (Plugin D S) → S → Option ApplyError × S
  apply_plugins diff [] applied system = (none, system)
  apply_plugins diff (p ∷ plugins) applied system =
      let done = p.apply_changes diff system in
      let rest = apply_plugins diff plugins (p ∷ applied) done.1 in
      let undone = rollback diff (p ∷ applied) done.1 in
      elim done.0 [ none ↦ rest | some failure ↦ (some (apply_error p failure undone.0), undone.1) ]

  -- Phase 1 of `Apply`, and the loop of `Validate`.
  unfoldable pub validate_plugins : D → List (Plugin D S) → S → Result EngineError (Unit {0})
  validate_plugins diff [] system = ok tt
  validate_plugins diff (p ∷ plugins) system = elim (p.validate_changes diff system) [
    | none ↦ validate_plugins diff plugins system
    | some failure ↦ err (plugin_invalid p.name failure)
  ]

abbrev pub require : {C : Type 0} → Option C → Result EngineError C
require none = err nil_config
require (some candidate) = ok candidate

module _ {C D : Type 0} (model : ConfigModel C D) where
  unfoldable pub check_config : C → Result EngineError (Unit {0})
  check_config candidate = elim (model.validate_config candidate) [
    | none ↦ ok tt
    | some failure ↦ err (config_invalid failure)
  ]

  abbrev pub new_snapshot : ℕ → C → ℕ → String → String → ConfigSnapshot C
  new_snapshot now config version author message = record {
    version = version;
    config = config;
    hash = model.hash config;
    author = author;
    message = message;
    created_at = now;
  }

module _ {C D S : Type 0} (model : ConfigModel C D) where
  abbrev pub running_config : Engine C D S → Option C
  running_config engine = elim engine.running [ none ↦ none | some snapshot ↦ some snapshot.config ]

  unfoldable pub validate : Option C → Engine C D S → S → Result EngineError (Unit {0})
  validate candidate engine system = do
    config ← require candidate
    _ ← check_config model config
    validate_plugins (model.compute_diff (running_config engine) config) engine.plugins system

  -- Phase 3 of `Apply`; the version is a `uint64`.
  unfoldable pub commit_running : ℕ → C → String → String → Engine C D S → Engine C D S
  commit_running now config author message engine =
      let next = (engine.version + 1) % 2 ^ 64 in
      record engine {
        version = next;
        running = some (new_snapshot model now config next author message);
      }

  -- Phases 2 and 3.
  unfoldable pub apply_changes :
      ℕ
      → C
      → D
      → String
      → String
      → Engine C D S
      → S
      → Result EngineError (Unit {0}) × (Engine C D S × S)
  apply_changes now config diff author message engine system =
      let done = apply_plugins diff engine.plugins [] system in
      elim done.0 [
        | none ↦ (ok tt, (commit_running now config author message engine, done.1))
        | some failure ↦ (err (apply_failed failure), (engine, done.1))
      ]

  -- `Apply` once the candidate is valid.
  unfoldable pub apply_config :
      ℕ
      → C
      → String
      → String
      → Engine C D S
      → S
      → Result EngineError (Unit {0}) × (Engine C D S × S)
  apply_config now config author message engine system =
      let diff = model.compute_diff (running_config engine) config in
      if model.has_changes diff
      then elim (validate_plugins diff engine.plugins system) [
        | err failure ↦ (err failure, (engine, system))
        | ok _ ↦ apply_changes now config diff author message engine system
      ]
      else (ok tt, (engine, system))

  unfoldable pub apply :
      ℕ
      → Option C
      → String
      → String
      → Engine C D S
      → S
      → Result EngineError (Unit {0}) × (Engine C D S × S)
  apply now none author message engine system = (err nil_config, (engine, system))
  apply now (some config) author message engine system = elim (check_config model config) [
    | err failure ↦ (err failure, (engine, system))
    | ok _ ↦ apply_config now config author message engine system
  ]

  unfoldable pub initialize_running : ℕ → C → ℕ → Engine C D S → Engine C D S
  initialize_running now config version engine = record engine {
    version = version;
    running = some (new_snapshot model now config version "system" "initial load");
  }
