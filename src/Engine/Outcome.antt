-- ===== src/Engine/Outcome.antt =====
-- `Apply` and `Validate` of internal/engine/engine.go on every branch.
use arca_router.Prelude.{
  ℕ, ◌+◌, ◌%◌, ◌^◌, List, [], ◌∷◌, none, some, String, ok, err, Result-cases, ◌≡◌, refl, ap, sym,
  ◌∙◌, Option-cases, Bool-cases, inl, inr, ◌⊎◌, true, false, arith, ◌>>=◌,
}
use arca_router.Engine.{
  Plugin, ApplyError, Engine, EngineError, ConfigModel, apply_failed, apply, apply_config,
  apply_changes, apply_plugins, validate, validate_plugins, check_config, commit_running, rollback,
  running_config,
}
use arca_router.Engine.Rollback.{Undoes, All}
use arca_router.Engine.Transaction.{
  Applies, apply_plugins-Applies, apply_plugins_restores, apply_plugins_complete,
}

module _ {C D S : Type 0} (model : ConfigModel C D) where
  abbrev pub diff_to : C → Engine C D S → D
  diff_to config engine = model.compute_diff (running_config model engine) config

  validate_plugins_phase :
      (diff : D) (plugins : List (Plugin D S)) (system : S) (failed : ApplyError)
      → ¬ (validate_plugins diff plugins system ≡ err (apply_failed failed))
  unfolding validate_plugins
  validate_plugins_phase diff [] system failed h = ground (arith, h)
  validate_plugins_phase diff (p ∷ plugins) system failed h =
      ground (arith, h, validate_plugins_phase diff plugins system failed)

  -- Validation never reports an error of the apply phase.
  validate_phase :
      (config : C) (engine : Engine C D S) (system : S) (failed : ApplyError)
      → ¬ (validate model (some config) engine system ≡ err (apply_failed failed))
  unfolding validate check_config
  validate_phase config engine system failed h =
      ground (arith, h, validate_plugins_phase (diff_to config engine) engine.plugins system failed)

  module _ (now : ℕ) (config : C) (author message : String) (engine : Engine C D S)
      (system : S) where
    rejected :
        {e : EngineError}
        → validate model (some config) engine system ≡ err e
        → model.has_changes (diff_to config engine) ≡ true
        → apply model now (some config) author message engine system ≡ (err e, (engine, system))
    unfolding validate apply apply_config
    rejected h changes = elim (Result-cases (check_config model config)) [
      | inl (e, c) ↦ ground (arith, h, c)
      | inr (u, c) ↦ ground (arith, h, c, changes)
    ]

    accepted :
        validate model (some config) engine system ≡ ok tt
        → model.has_changes (diff_to config engine) ≡ true
        → apply model now (some config) author message engine system
          ≡ apply_changes model now config (diff_to config engine) author message engine system
    unfolding validate apply apply_config
    accepted h changes = elim (Result-cases (check_config model config)) [
      | inl (e, c) ↦ absurd (ground (arith, h, c))
      | inr (u, c) ↦ ground (arith, h, c, changes)
    ]

    apply_changes_failed :
        (diff : D) {e : EngineError} {engine' : Engine C D S} {system' : S}
        → apply_changes model now config diff author message engine system
          ≡ (err e, (engine', system'))
        → (failed : ApplyError) × (e ≡ apply_failed failed)
          × (engine' ≡ engine)
          × (apply_plugins diff engine.plugins [] system ≡ (some failed, system'))
    unfolding apply_changes
    apply_changes_failed diff h =
        elim (Option-cases (apply_plugins diff engine.plugins [] system).0) [
          | inl n ↦ absurd (ground (arith, h, n))
          | inr (failed, s) ↦
              (failed, ground (arith, h, s), ground (arith, h, s), ground (arith, h, s))
        ]

    apply_changes_done :
        (diff : D) {engine' : Engine C D S} {system' : S}
        → apply_changes model now config diff author message engine system
          ≡ (ok tt, (engine', system'))
        → (engine' ≡ commit_running model now config author message engine)
          × (apply_plugins diff engine.plugins [] system ≡ (none, system'))
    unfolding apply_changes
    apply_changes_done diff h =
        elim (Option-cases (apply_plugins diff engine.plugins [] system).0) [
          | inl n ↦ (ground (arith, h, n), ground (arith, h, n))
          | inr (failed, s) ↦ absurd (ground (arith, h, s))
        ]

    -- An error leaves everything as it was, unless the plugins ran.
    pub apply_failed_cases :
        {e : EngineError} {engine' : Engine C D S} {system' : S}
        → apply model now (some config) author message engine system ≡ (err e, (engine', system'))
        → ((validate model (some config) engine system ≡ err e)
            × (engine' ≡ engine)
            × (system' ≡ system))
          ⊎ ((failed : ApplyError) × (e ≡ apply_failed failed)
              × (engine' ≡ engine)
              × (apply_plugins (diff_to config engine) engine.plugins [] system
                  ≡ (some failed, system')))
    unfolding apply apply_config validate
    apply_failed_cases h = elim (Bool-cases (model.has_changes (diff_to config engine))) [
      | inl changes ↦ elim (Result-cases (validate model (some config) engine system)) [
        | inl (e, v) ↦
            let same = sym (rejected v changes) ∙ h in
            inl (v ∙ ap (λ r. ◌>>=◌ r.0 λ _. ok tt) same, cc same, cc same)
        | inr (_, v) ↦
            inr (apply_changes_failed (diff_to config engine) (sym (accepted v changes) ∙ h))
      ]
      | inr none_found ↦ elim (Result-cases (check_config model config)) [
        | inl (e, c) ↦ inl (ground (arith, h, c), ground (arith, h, c), ground (arith, h, c))
        | inr (_, c) ↦ absurd (ground (arith, h, c, none_found))
      ]
    ]

    -- Where the plugins keep the contract of `RollbackChanges`, an `Apply` that returns an error leaves
    -- the engine and the system as they were, and reports each rollback as a success.
    pub apply_atomic :
        {e : EngineError} {engine' : Engine C D S} {system' : S}
        → All (Undoes (diff_to config engine)) engine.plugins
        → apply model now (some config) author message engine system ≡ (err e, (engine', system'))
        → (engine' ≡ engine)
          × (system' ≡ system)
          × ((failed : ApplyError) → e ≡ apply_failed failed → failed.rollback_succeeded ≡ true)
    unfolding rollback
    apply_atomic all h = elim (apply_failed_cases h) [
      | inl (v, g, s) ↦
          (g, s, λ failed e. absurd (validate_phase config engine system failed (v ∙ ap err e)))
      | inr (failed, e, g, run) ↦
          let restored =
            apply_plugins_restores (diff_to config engine) engine.plugins [] system all refl run in
          (g, restored.0, λ failed' e'. cc (e, e', restored.1))
    ]

    -- An `Apply` that returns no error has changed nothing, if the candidate makes no difference to
    -- the running configuration; otherwise every plugin applied the difference in order and the
    -- engine runs the candidate under the next version.
    pub apply_commits :
        {engine' : Engine C D S} {system' : S}
        → apply model now (some config) author message engine system ≡ (ok tt, (engine', system'))
        → ((model.has_changes (diff_to config engine) ≡ false)
            × (engine' ≡ engine)
            × (system' ≡ system))
          ⊎ ((model.has_changes (diff_to config engine) ≡ true)
              × Applies (diff_to config engine) engine.plugins system system'
              × (engine'.plugins ≡ engine.plugins)
              × (engine'.version ≡ (engine.version + 1) % 2 ^ 64)
              × (running_config model engine' ≡ some config))
    unfolding apply apply_config validate commit_running
    apply_commits h = elim (Bool-cases (model.has_changes (diff_to config engine))) [
      | inl changes ↦ elim (Result-cases (validate model (some config) engine system)) [
        | inl (e, v) ↦ absurd (ground (arith, rejected v changes, h))
        | inr (_, v) ↦
            let (g, run) =
              apply_changes_done (diff_to config engine) (sym (accepted v changes) ∙ h) in
            inr (
              changes,
              apply_plugins-Applies (diff_to config engine) engine.plugins [] system run,
              ap (λ e. e.plugins) g,
              ap (λ e. e.version) g,
              ap (running_config model) g,
            )
      ]
      | inr same ↦ elim (Result-cases (check_config model config)) [
        | inl (e, c) ↦ absurd (ground (arith, h, c))
        | inr (_, c) ↦ inl (same, ground (arith, h, c, same), ground (arith, h, c, same))
      ]
    ]

    -- A candidate that differs from the running configuration, that `Validate` accepts and that every
    -- plugin applies becomes the running configuration of the engine, in a snapshot with the next
    -- version, modulo 2^64, the author, the message and the time; the plugins are as before.
    pub apply_complete :
        {system' : S}
        → validate model (some config) engine system ≡ ok tt
        → model.has_changes (diff_to config engine) ≡ true
        → Applies (diff_to config engine) engine.plugins system system'
        → apply model now (some config) author message engine system ≡ (
          ok tt,
          (
            record {
              running = some (record {
                version = (engine.version + 1) % 2 ^ 64;
                config = config;
                hash = model.hash config;
                author = author;
                message = message;
                created_at = now;
              });
              plugins = engine.plugins;
              version = (engine.version + 1) % 2 ^ 64;
            },
            system',
          ),
        )
    unfolding apply_changes commit_running
    apply_complete v changes run =
        accepted v changes
        ∙ ground (arith, apply_plugins_complete (diff_to config engine) engine.plugins [] run)
