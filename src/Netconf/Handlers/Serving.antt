-- ===== src/Netconf/Handlers/Serving.antt =====
-- What the handlers of pkg/netconf leave of the locks of their session.
use arca_router.Prelude.{
  ℕ, true, Option, none, some, String, Result, ok, err, ◌>>=◌, ◌≡◌, refl, sym, subst, arith, inl,
  inr, Result-cases,
}
use arca_router.Datastore.Schema.{
  is_lock_target, lock_target_candidate, CommitRequest, Database, Tx, with_tx,
}
use arca_router.Datastore.Locks.{acquire_lock, release_lock, get_lock_info}
use arca_router.Datastore.Locks.Unlocks.{release_lock-Unlocks, commit-Unlocks}
use arca_router.Datastore.Commits.{commit, save_candidate, delete_candidate}
use arca_router.Datastore.WellFormed.{WellFormed, Keeps}
use arca_router.Datastore.Invariant.Locks.{release_lock-WellFormed}
use arca_router.Datastore.Invariant.Commits.{
  commit-WellFormed, save_candidate-WellFormed, delete_candidate-WellFormed,
}
use arca_router.Netconf.Sessions.{Session, SessionManager}
use arca_router.Netconf.Sessions.Covers.{
  Covers, Serves, nothing_done, locks_kept, lock_added, lock_gone, lock_removed,
}
use arca_router.Netconf.Handlers.{
  Reply, Target, Outcome, ok_reply, or_reply, or_datastore_error, check_lock_target, lock_request,
  lock_on, after_acquire, handle_lock, unlock_on, check_unlock, handle_unlock,
  handle_discard_changes, handle_delete_config, get_datastore,
}
use arca_router.Netconf.Handlers.Configs.{
  Content, CommitFailure, CommitHook, Persist, EditConfigRequest, CopyConfigRequest, persist_by,
  commit_request, commit_on, after_commit, handle_commit, save, handle_edit_config,
  handle_copy_config, ready_to_commit,
}
use arca_router.Netconf.Handlers.Hooks.{HookPersists, Persisted, persist_by-Persisted}

with_tx-eq-ok :
    {A : Type 0} (db db' : Database) (r : Tx A) (a : A)
    → with_tx db r ≡ (db', ok a)
    → r ≡ ok (a, db')
with_tx-eq-ok db db' (ok (b, d)) a h = cc
with_tx-eq-ok db db' (err e) a h = cc

abbrev pub Served : Session → Database → Outcome → Type 0
Served s db out = Serves s db out.1 out.2

module _ (s : Session) (db : Database) (v : WellFormed db) (c : Covers s db) where
  or_reply-Served :
      {A : Type 0} (r : Result Reply A) (next : A → Outcome)
      → ((a : A) → r ≡ ok a → Served s db (next a))
      → Served s db (or_reply s db r next)
  or_reply-Served (err reply) next h = nothing_done s db v c
  or_reply-Served (ok a) next h = h a refl

  or_datastore_error-Served :
      {A : Type 0} (r : Tx A) (next : Database → Outcome)
      → ((a : A) (db' : Database) → r ≡ ok (a, db') → Served s db (next db'))
      → Served s db (or_datastore_error s db r next)
  or_datastore_error-Served (err e) next h = nothing_done s db v c
  or_datastore_error-Served (ok (a, db')) next h = h a db' refl

  module _ (sm : SessionManager) (now : ℕ) where
    after_acquire-Served :
        (target : String) (r : Tx (Unit {0}))
        → is_lock_target target ≡ true
        → acquire_lock now (some (lock_request sm now target s)) db ≡ r
        → Served s db (after_acquire sm now target s db r)
    after_acquire-Served target (err failure) valid e = nothing_done s db v c
    after_acquire-Served target (ok (u, db')) valid e =
        lock_added s db v c now (lock_request sm now target s) refl valid e

    lock_on-Served :
        (target : String) → is_lock_target target ≡ true → Served s db (lock_on sm now target s db)
    unfolding lock_on
    lock_on-Served target valid = after_acquire-Served target _ valid refl

    checked_target :
        (r : Result Reply String) {target : String}
        → r >>= check_lock_target ≡ ok target
        → is_lock_target target ≡ true
    unfolding check_lock_target
    checked_target (ok t) h = ground (arith, h)
    checked_target (err reply) h = cc

    pub handle_lock-Served : (req : Result Reply Target) → Served s db (handle_lock sm now req s db)
    unfolding handle_lock
    handle_lock-Served req =
        or_reply-Served (req >>= get_datastore >>= check_lock_target) (λ t. lock_on sm now t s db)
          λ t e. lock_on-Served t (checked_target (req >>= get_datastore) e)

    unlock_on-Served : (target : String) → Served s db (unlock_on sm now target s db)
    unfolding unlock_on
    unlock_on-Served target =
        or_reply-Served (check_unlock sm now s (get_lock_info now target db)) _ λ _ _.
          or_datastore_error-Served (release_lock now target s.id db) _ λ _ db' e.
            lock_removed s db v c target db'
              (subst Keeps e (release_lock-WellFormed db v now target s.id))
              (release_lock-Unlocks now target s.id db v.locks e)

    pub handle_unlock-Served :
        (req : Result Reply Target) → Served s db (handle_unlock sm now req s db)
    unfolding handle_unlock
    handle_unlock-Served req =
        or_reply-Served (req >>= get_datastore >>= check_lock_target) _ (λ t _. unlock_on-Served t)

    deleted-Served :
        Served s db (or_datastore_error s db (delete_candidate s.id db) (λ db'. (ok_reply, s, db')))
    unfolding delete_candidate
    deleted-Served =
        or_datastore_error-Served (delete_candidate s.id db) (λ d. (ok_reply, s, d))
          λ u db' e.
            locks_kept s db v c db' (subst Keeps e (delete_candidate-WellFormed db v s.id))
              (ground (arith, e))

    pub handle_discard_changes-Served :
        (req : Result Reply (Unit {0})) → Served s db (handle_discard_changes sm now req s db)
    unfolding handle_discard_changes
    handle_discard_changes-Served req = or_reply-Served _ _ (λ _ _. deleted-Served)

    pub handle_delete_config-Served :
        (req : Result Reply Target) → Served s db (handle_delete_config sm now req s db)
    unfolding handle_delete_config
    handle_delete_config-Served req = or_reply-Served _ _ (λ _ _. deleted-Served)

  module _ (content : Content) (protect : String → Option String) (sm : SessionManager)
      (now : ℕ) where
    committed :
        (id : String) (req : CommitRequest)
        → req.session_id ≡ s.id
        → Serves s db s (with_tx db (commit now id (some req) db)).0
    committed id req own = elim (Result-cases (commit now id (some req) db)) [
      | inl (e, h) ↦ rw h (nothing_done s db v c)
      | inr ((a, db'), h) ↦ rw h (
          lock_gone s db v c lock_target_candidate db'
            (subst Keeps h (commit-WellFormed db v now id (some req)))
            (commit-Unlocks now id req db v.locks h))
    ]

    after_commit-Served :
        (id : String) (req : CommitRequest) (r : Database × Result CommitFailure String)
        → Persisted (λ d. with_tx d (commit now id (some req) d)) db r
        → req.session_id ≡ s.id
        → Served s db (after_commit content protect sm now s r)
    after_commit-Served id req (db', ok id') p own =
        let h = with_tx-eq-ok db db' (commit now id (some req) db) id' p in
        lock_removed s db v c lock_target_candidate db'
          (subst Keeps h (commit-WellFormed db v now id (some req)))
          (commit-Unlocks now id req db v.locks h)
    after_commit-Served id req (db', err failure) (inl same) own =
        subst (λ d. Serves s db s d) (sym same) (nothing_done s db v c)
    after_commit-Served id req (db', err failure) (inr same) own =
        subst (λ d. Serves s db s d) (sym same) (committed id req own)

    commit_on-Served :
        (hook : Option CommitHook) (remote id text : String)
        → HookPersists hook
        → Served s db (commit_on content protect sm now hook remote id text s db)
    unfolding commit_on
    commit_on-Served hook remote id text law =
        let req = commit_request content protect sm now remote s in
        let persist : Persist = λ d. with_tx d (commit now id (some req) d) in
        after_commit-Served id req (persist_by hook req text persist db)
          (persist_by-Persisted hook req text persist db law) refl

    pub handle_commit-Served :
        (hook : Option CommitHook) (remote id : String) (req : Result Reply (Unit {0}))
        → HookPersists hook
        → Served s db (handle_commit content protect sm now hook remote id req s db)
    unfolding handle_commit
    handle_commit-Served hook remote id req law =
        or_reply-Served (req >>= λ _. ready_to_commit content protect sm now s db)
          (λ text. commit_on content protect sm now hook remote id text s db)
          (λ text _. commit_on-Served hook remote id text law)

    save-Served : (text : Option String) → Served s db (save content protect sm now s db text)
    unfolding save_candidate
    save-Served none = nothing_done s db v c
    save-Served (some text) =
        or_datastore_error-Served (save_candidate protect now s.id text db) (λ d. (ok_reply, s, d))
          λ u db' e.
            locks_kept s db v c db'
              (subst Keeps e (save_candidate-WellFormed protect db v now s.id text))
              (ground (arith, e))

    pub handle_edit_config-Served :
        (req : Result Reply (EditConfigRequest content.Config))
        → Served s db (handle_edit_config content protect sm now req s db)
    unfolding handle_edit_config
    handle_edit_config-Served req = or_reply-Served _ _ (λ text _. save-Served text)

    pub handle_copy_config-Served :
        (req : Result Reply (CopyConfigRequest content.Config))
        → Served s db (handle_copy_config content protect sm now req s db)
    unfolding handle_copy_config
    handle_copy_config-Served req = or_reply-Served _ _ (λ text _. save-Served text)
