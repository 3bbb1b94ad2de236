-- ===== src/Daemon/Hook.antt =====
-- The hook of cmd/arca-routerd/main.go as the NETCONF handlers take it.
use arca_router.Prelude.{
  ℕ, Option, none, some, String, Result, ok, err, ◌≡◌, ◌⊎◌, inl, inr, refl, sym, ap, ◌∙◌,
  Option-cases, Option-intro,
}
use arca_router.Datastore.Schema.{CommitRequest, Database}
use arca_router.Engine.{ConfigModel, Engine}
use arca_router.Netconf.Handlers.Configs.{
  CommitFailure, datastore_failure, backend_failure, CommitHook, Persist,
}
use arca_router.Netconf.Handlers.Hooks.{HookPersists}
use arca_router.Daemon.{
  HookError, invalid_text, no_changes, refused, not_persisted, Outcome, commit_hook,
}
use arca_router.Daemon.Branches.{EndsAt, commit_hook-Ends}

-- `errors.As` finds the error of the datastore in that of a commit which was not stored.
abbrev failure_of : HookError → CommitFailure
failure_of (not_persisted e _) = datastore_failure e
failure_of _ = backend_failure

abbrev answer_of : {C D S : Type 0} → Outcome C D S → Database × Result CommitFailure String
answer_of (ok id, engine, system, db) = (db, ok id)
answer_of (err e, engine, system, db) = (db, err (failure_of e))

module _ {C D S : Type 0} (model : ConfigModel C D) (read : String → Option C)
    (new_router_config : C) (now : ℕ) (engine : Engine C D S) (system : S) where
  abbrev netconf_hook : CommitHook
  netconf_hook req text persist db = answer_of (
      commit_hook model read new_router_config now req.user req.message persist text engine system
        db)

  abbrev Stores : Persist → Database → Outcome C D S → Type 0
  Stores persist db (ok id, engine', system', db') = persist db ≡ (db', ok id)
  Stores persist db (err e, engine', system', db') = (db' ≡ db) ⊎ (db' ≡ (persist db).0)

  module _ (req : CommitRequest) (persist : Persist) (db : Database) where
    EndsAt-Stores :
        (config : C) (out : Outcome C D S)
        → EndsAt model read new_router_config now req.user req.message persist engine db config out
        → Stores persist db out
    EndsAt-Stores config (ok id, engine', system', db') a = a.1
    EndsAt-Stores config (err (not_persisted e none), engine', system', db') a =
        inr (ap (λ x. x.0) (sym a.0))
    EndsAt-Stores config (err (not_persisted e (some f)), engine', system', db') a =
        inr (ap (λ x. x.0) (sym a.0))
    EndsAt-Stores config (err invalid_text, engine', system', db') a = inl a.1
    EndsAt-Stores config (err no_changes, engine', system', db') a = inl a.1
    EndsAt-Stores config (err (refused e), engine', system', db') a = inl a.1

    commit_hook-Stores :
        (text : String)
        → Stores persist db (
            commit_hook model read new_router_config now req.user req.message persist text engine
              system db)
    unfolding commit_hook
    commit_hook-Stores text = elim (Option-cases (read text)) [
      | inl e ↦
          Option-intro (Stores persist db) (read text) _ _ (λ _. inl refl)
            λ c f. let lost : none ≡ some c = sym e ∙ f in absurd cc
      | inr (config, e) ↦ EndsAt-Stores config _ (
          commit_hook-Ends model read new_router_config now req.user req.message persist engine db
            text system config e)
    ]

    answer_of-Stores :
        (out : Outcome C D S) (db' : Database)
        → Stores persist db out
        → ((id : String) → answer_of out ≡ (db', ok id) → persist db ≡ (db', ok id))
          × ((failure : CommitFailure)
              → answer_of out ≡ (db', err failure)
              → (db' ≡ db) ⊎ (db' ≡ (persist db).0))
    answer_of-Stores (ok id, engine', system', d) db' h = (λ id' e. cc, λ f e. cc)
    answer_of-Stores (err e, engine', system', d) db' (inl h) = (λ id e. cc, λ f e. inl cc)
    answer_of-Stores (err e, engine', system', d) db' (inr h) = (λ id e. cc, λ f e. inr cc)

  -- The hook of the daemon is one that the NETCONF handlers may have.
  netconf_hook-HookPersists : HookPersists (some netconf_hook)
  netconf_hook-HookPersists req text persist db db' =
      answer_of-Stores req persist db
        (commit_hook model read new_router_config now req.user req.message persist text engine
          system db)
        db' (commit_hook-Stores req persist db text)
