-- ===== src/Engine/Idempotent.antt =====
-- The engine of internal/engine/engine.go over the comparison of internal/engine/diff.go.
use arca_router.Prelude.{
  ℕ, Bool, true, List, [], Option, some, String, Bytes, ok, ◌≡◌, arith, Result-cases, inl, inr,
}
use arca_router.Datastore.Table.{HasUniqueKeys}
use arca_router.Engine.{Engine, ConfigModel, apply, apply_config, check_config}
use arca_router.Engine.Outcome.{diff_to, apply_commits}
use arca_router.Engine.Diff.{name_of}
use arca_router.Engine.Diff.Compute.{RouterConfig, ConfigDiff, compute_diff, has_changes}
use arca_router.Engine.Diff.Compute.Self.{HasUniqueProtocols, has_changes-compute_diff_self}

module _ {Section : Type 0} (nil : Section) (deep_equal : Section → Section → Bool)
    (sort_strings : List String → List String)
    (validate_config : RouterConfig Section → Option String)
    (hash : RouterConfig Section → Bytes) where
  -- What the engine uses of internal/model and of the comparison.
  abbrev pub router_model : ConfigModel (RouterConfig Section) (ConfigDiff Section)
  router_model = record {
    validate_config = validate_config;
    compute_diff = compute_diff nil deep_equal sort_strings;
    has_changes = has_changes;
    hash = hash;
  }

  -- A configuration that was applied is not applied again: a second `Apply` of it, by anyone, calls
  -- no plugin and keeps the engine as it is. Its maps have unique names, `deep_equal` finds every
  -- section equal to itself, and sorting nothing gives nothing.
  pub apply_idempotent :
      {S : Type 0} (now later : ℕ) (config : RouterConfig Section)
      (author message author' message' : String)
      (engine engine' : Engine (RouterConfig Section) (ConfigDiff Section) S) (system system' : S)
      → ((section : Section) → deep_equal section section ≡ true)
      → sort_strings [] ≡ []
      → HasUniqueKeys name_of config.interfaces
      → HasUniqueProtocols config.protocols
      → has_changes (diff_to router_model config engine) ≡ true
      → apply router_model now (some config) author message engine system
        ≡ (ok tt, (engine', system'))
      → apply router_model later (some config) author' message' engine' system'
        ≡ (ok tt, (engine', system'))
  unfolding apply apply_config check_config
  apply_idempotent now later config author message author' message' engine engine' system system'
        self sorted u p changes h =
      let same = has_changes-compute_diff_self nil deep_equal sort_strings config self sorted u p in
      elim (apply_commits router_model now config author message engine system h) [
        | inl kept ↦ absurd (ground (arith, kept.0, changes))
        | inr done ↦ elim (Result-cases (check_config router_model config)) [
          | inl (e, c) ↦ absurd (ground (arith, h, c))
          | inr (_, c) ↦ rw c (ground (arith, same, done.4))
        ]
      ]
