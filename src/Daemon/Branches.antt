-- ===== src/Daemon/Branches.antt =====
-- The ends of the commit hook of cmd/arca-routerd/main.go, whatever stores the commit.
use arca_router.Prelude.{
  ℕ, true, false, Option, none, some, String, Result, ok, err, ◌≡◌, ◌⊎◌, inl, inr, refl, sym, ap,
  ◌∙◌, arith, subst, if-intro, Option-intro,
}
use arca_router.Datastore.Schema.{ErrorCode, Database}
use arca_router.Engine.{ConfigModel, Engine, EngineError, validate, apply, running_config}
use arca_router.Engine.Outcome.{apply_commits, apply_failed_cases}
use arca_router.Daemon.{
  HookError, not_persisted, error_of, Outcome, config_before, rollback_to, after_persist,
  after_apply, after_validate, commit_hook,
}

module _ {C D S : Type 0} (model : ConfigModel C D) (read : String → Option C)
    (new_router_config : C) (now : ℕ) (user message : String)
    (persist : Database → Database × Result ErrorCode String) (engine : Engine C D S)
    (db : Database) where
  abbrev pub before : C
  before = config_before model new_router_config engine

  -- Where an answer leaves engine and tables, for a candidate that was read as `config`.
  abbrev pub Ends : C → Result HookError String → Engine C D S → Database → Type 0
  Ends config (ok id) engine' db' =
      (running_config model engine' ≡ some config) × (persist db ≡ (db', ok id))
  Ends config (err (not_persisted e none)) engine' db' =
      (persist db ≡ (db', err e))
      × ((running_config model engine' ≡ some before)
          ⊎ ((running_config model engine' ≡ some config)
              × (model.has_changes (model.compute_diff (some config) before) ≡ false)))
  Ends config (err (not_persisted e (some failure))) engine' db' =
      (persist db ≡ (db', err e)) × (running_config model engine' ≡ some config)
  Ends config (err _) engine' db' = (engine' ≡ engine) × (db' ≡ db)

  abbrev pub EndsAt : C → Outcome C D S → Type 0
  EndsAt config out = Ends config out.0 out.1 out.3

  engine_kept :
      (config : C) (note : String) (engine1 : Engine C D S) (system1 : S) {e : EngineError}
      {engine2 : Engine C D S} {system2 : S}
      → apply model now (some config) user note engine1 system1 ≡ (err e, (engine2, system2))
      → engine2 ≡ engine1
  engine_kept config note engine1 system1 h =
      elim (apply_failed_cases model now config user note engine1 system1 h) [
        | inl (v, g, s) ↦ g
        | inr (failed, e, g, run) ↦ g
      ]

  after_rollback-Ends :
      (config : C) (e : ErrorCode) (db' : Database) (engine1 : Engine C D S) (system1 : S)
      (answer : Result EngineError (Unit {0})) (engine2 : Engine C D S) (system2 : S)
      → persist db ≡ (db', err e)
      → running_config model engine1 ≡ some config
      → rollback_to model read new_router_config now user message persist before engine1 system1
        ≡ (answer, (engine2, system2))
      → Ends config (err (not_persisted e (error_of answer))) engine2 db'
  unfolding rollback_to
  after_rollback-Ends config e db' engine1 system1 (ok u) engine2 system2 p r h =
      elim (apply_commits model now before user "rollback failed NETCONF commit persistence" engine1
        system1 h) [
          | inl same ↦ (
            p,
            inr (
              ap (running_config model) same.1 ∙ r,
              subst (λ x. model.has_changes (model.compute_diff x before) ≡ false) r same.0,
            ),
          )
          | inr done ↦ (p, inl done.4)
        ]
  after_rollback-Ends config e db' engine1 system1 (err f) engine2 system2 p r h = (
    p,
    ap (running_config model)
          (engine_kept before "rollback failed NETCONF commit persistence" engine1 system1 h)
        ∙ r,
  )

  after_persist-Ends :
      (config : C) (engine1 : Engine C D S) (system1 : S)
      (stored : Database × Result ErrorCode String)
      → persist db ≡ stored
      → running_config model engine1 ≡ some config
      → EndsAt config (
          after_persist model read new_router_config now user message persist before engine1 system1
            stored)
  after_persist-Ends config engine1 system1 (db', ok id) p r = (r, p)
  after_persist-Ends config engine1 system1 (db', err e) p r =
      after_rollback-Ends config e db' engine1 system1 _ _ _ p r refl

  after_apply-Ends :
      (config : C) (system : S) (answer : Result EngineError (Unit {0})) (engine1 : Engine C D S)
      (system1 : S)
      → model.has_changes (model.compute_diff (running_config model engine) config) ≡ true
      → apply model now (some config) user message engine system ≡ (answer, (engine1, system1))
      → EndsAt config (
          after_apply model read new_router_config now user message persist before db
            (answer, (engine1, system1)))
  after_apply-Ends config system (err e) engine1 system1 changes h =
      (engine_kept config message engine system h, refl)
  after_apply-Ends config system (ok u) engine1 system1 changes h =
      elim (apply_commits model now config user message engine system h) [
        | inl (none_found, g, s) ↦ ground (arith, none_found, changes)
        | inr done ↦ after_persist-Ends config engine1 system1 (persist db) refl done.4
      ]

  after_validate-Ends :
      (config : C) (system : S) (answer : Result EngineError (Unit {0}))
      → EndsAt config (
          after_validate model read new_router_config now user message persist config engine system
            db answer)
  after_validate-Ends config system (err e) = (refl, refl)
  after_validate-Ends config system (ok u) =
      if-intro (EndsAt config)
        (model.has_changes (model.compute_diff (running_config model engine) config))
        (λ changes. after_apply-Ends config system _ _ _ changes refl) (λ _. (refl, refl))

  pub commit_hook-Ends :
      (text : String) (system : S) (config : C)
      → read text ≡ some config
      → EndsAt config
          (commit_hook model read new_router_config now user message persist text engine system db)
  unfolding commit_hook
  commit_hook-Ends text system config e =
      Option-intro (EndsAt config) (read text) _ _ (λ _. (refl, refl))
        λ c f.
          let found : some config ≡ some c = sym e ∙ f in
          let same : config ≡ c = cc found in
          subst
            (λ x. EndsAt config (
              after_validate model read new_router_config now user message persist x engine system
                db (validate model (some x) engine system)))
            same (after_validate-Ends config system (validate model (some config) engine system))
