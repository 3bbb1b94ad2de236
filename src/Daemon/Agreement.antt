-- ===== src/Daemon/Agreement.antt =====
-- Engine and datastore after the commit hook of cmd/arca-routerd/main.go.
use arca_router.Prelude.{
  ℕ, false, Option, none, some, String, Result, ok, err, ◌≡◌, ◌⊎◌, inl, inr, refl, sym, ap, ◌∙◌,
  Option-cases,
}
use arca_router.Datastore.Schema.{
  ErrorCode, CommitRequest, CandidateRow, RunningRow, Database, Tx, with_tx,
}
use arca_router.Datastore.Commits.{commit, get_candidate, get_running}
use arca_router.Datastore.Commits.Effects.{commit-Committed}
use arca_router.Datastore.WellFormed.{WellFormed}
use arca_router.Engine.{ConfigModel, Engine, running_config}
use arca_router.Daemon.{
  invalid_text, no_changes, refused, not_persisted, Outcome, config_before, commit_hook,
}
use arca_router.Daemon.Branches.{EndsAt, commit_hook-Ends}

with_tx-err :
    (db : Database) (r : Tx String) {e : ErrorCode} {db' : Database}
    → with_tx db r ≡ (db', err e)
    → db' ≡ db
with_tx-err db (ok (i, d)) h = cc
with_tx-err db (err f) h = cc

with_tx-ok :
    (db : Database) (r : Tx String) {i : String} {db' : Database}
    → with_tx db r ≡ (db', ok i)
    → r ≡ ok (i, db')
with_tx-ok db (ok (j, d)) h = cc
with_tx-ok db (err f) h = cc

module _ {C D S : Type 0} (model : ConfigModel C D) (read : String → Option C)
    (new_router_config : C) (engine : Engine C D S) (db : Database) where
  -- What ran before: the running configuration, or an empty one where nothing ran.
  abbrev pub RanBefore : C → Type 0
  RanBefore c =
      (running_config model engine ≡ some c)
      ⊎ ((running_config model engine ≡ none) × (c ≡ new_router_config))

  -- How engine and tables stand after a commit of the text that is read as `config`.
  abbrev pub Agrees : C → Outcome C D S → Type 0
  Agrees config (ok id, engine', system', db') =
      (running_config model engine' ≡ some config)
      × ((row : RunningRow) × (get_running db' ≡ ok row) × (read row.config_text ≡ some config))
  Agrees config (err (not_persisted e none), engine', system', db') =
      (db' ≡ db)
      × ((c : C) × RanBefore c
          × ((running_config model engine' ≡ some c)
              ⊎ ((running_config model engine' ≡ some config)
                  × (model.has_changes (model.compute_diff (some config) c) ≡ false))))
  Agrees config (err (not_persisted e (some failure)), engine', system', db') =
      (db' ≡ db) × (running_config model engine' ≡ some config)
  Agrees config (err _, engine', system', db') = (engine' ≡ engine) × (db' ≡ db)

  config_before-RanBefore : RanBefore (config_before model new_router_config engine)
  config_before-RanBefore = elim (Option-cases (running_config model engine)) [
    | inl e ↦ inr (e, rw (e, config_before) refl)
    | inr (c, e) ↦ inl (e ∙ ap some (rw (e, config_before) refl))
  ]

  module _ (now : ℕ) (id : String) (req : CommitRequest) where
    abbrev pub persist : Database → Database × Result ErrorCode String
    persist d = with_tx d (commit now id (some req) d)

    persist_done :
        (config : C) (candidate : CandidateRow) {i : String} {db' : Database}
        → WellFormed db
        → get_candidate req.session_id db ≡ ok candidate
        → read candidate.config_text ≡ some config
        → persist db ≡ (db', ok i)
        → (row : RunningRow) × (get_running db' ≡ ok row) × (read row.config_text ≡ some config)
    persist_done config candidate v saved text h =
        let done = commit-Committed now id req db v (with_tx-ok db _ h) in
        let c = done.1 in
        let both : ok c.candidate ≡ ok candidate = sym c.saved ∙ saved in
        let same : c.candidate ≡ candidate = cc both in
        (_, c.current, ap (λ (r : CandidateRow). read r.config_text) same ∙ text)

    Ends-Agrees :
        (config : C) (candidate : CandidateRow) (out : Outcome C D S)
        → WellFormed db
        → get_candidate req.session_id db ≡ ok candidate
        → read candidate.config_text ≡ some config
        → EndsAt model read new_router_config now req.user req.message persist engine db config out
        → Agrees config out
    Ends-Agrees config candidate (ok i, engine', system', db') v saved text h =
        (h.0, persist_done config candidate v saved text h.1)
    Ends-Agrees config candidate (err (not_persisted e none), engine', system', db') v saved text
          h =
        (with_tx-err db (commit now id (some req) db) h.0, (_, config_before-RanBefore, h.1))
    Ends-Agrees config candidate (err (not_persisted e (some f)), engine', system', db') v saved
          text h =
        (with_tx-err db (commit now id (some req) db) h.0, h.1)
    Ends-Agrees config candidate (err invalid_text, engine', system', db') v saved text h = h
    Ends-Agrees config candidate (err no_changes, engine', system', db') v saved text h = h
    Ends-Agrees config candidate (err (refused e), engine', system', db') v saved text h = h

    -- A NETCONF commit of the text of the session's candidate, a text that can be read, which stores
    -- by the datastore's commit, from well-formed tables. One that succeeds leaves in the datastore a
    -- current configuration whose text reads as what the engine runs. One that fails leaves the
    -- datastore as it was. The engine is then as it was too, unless the failure is one of storing:
    -- then it runs what ran before the commit, or the new configuration where that differs from it in
    -- nothing, and where this way back failed as well, which the error says, the new configuration.
    pub commit_hook-Agrees :
        (config : C) (candidate : CandidateRow) (system : S)
        → WellFormed db
        → get_candidate req.session_id db ≡ ok candidate
        → read candidate.config_text ≡ some config
        → Agrees config (
            commit_hook model read new_router_config now req.user req.message persist
              candidate.config_text engine system db)
    commit_hook-Agrees config candidate system v saved text =
        Ends-Agrees config candidate _ v saved text (
          commit_hook-Ends model read new_router_config now req.user req.message persist engine db
            candidate.config_text system config text)
