-- ===== src/Netconf/Handlers/Permissions.antt =====
-- Who may change what through the handlers of pkg/netconf: roles, and the lock on the candidate.
use text.Mathlib.Text.{◌==◌ as str_eq}
use arca_router.Prelude.{
  ℕ, false, not, ◌&&◌, List, Option, String, Result, ok, err, ◌>>=◌, ◌≡◌, refl, arith, if-intro,
}
use arca_router.Datastore.Schema.{ErrorCode, lock_target_candidate, LockInfo, Database}
use arca_router.Datastore.Locks.{get_lock_info}
use arca_router.Netconf.Sessions.{Session, SessionManager, State}
use arca_router.Netconf.Handlers.{
  Reply, Outcome, or_reply, check_lock_ownership, check_owner, Target, get_datastore,
  check_candidate_target, handle_delete_config, handle_discard_changes,
}
use arca_router.Netconf.Handlers.Configs.{
  Content, CommitHook, EditConfigRequest, CopyConfigRequest, ready_to_commit, edited, copied,
  handle_commit, handle_edit_config, handle_copy_config,
}
use arca_router.Netconf.Handlers.Dispatch.{
  Rpc, edit_config, copy_config, delete_config, commits, discard_changes, run_handler,
}

abbrev IsErr : {A : Type 0} → Result Reply A → Type 0
IsErr (err reply) = Unit {0}
IsErr (ok a) = ⊥

bind-IsErr :
    {A B : Type 0} (r : Result Reply A) (next : A → Result Reply B)
    → ((a : A) → IsErr (next a))
    → IsErr (r >>= next)
bind-IsErr (err reply) next h = tt
bind-IsErr (ok a) next h = h a

first-IsErr :
    {A B : Type 0} (r : Result Reply A) (next : A → Result Reply B) → IsErr r → IsErr (r >>= next)
first-IsErr (err reply) next h = tt
first-IsErr (ok a) next h = absurd h

or_reply-refused :
    {A : Type 0} (s : Session) (db : Database) (r : Result Reply A) (next : A → Outcome)
    → IsErr r
    → (or_reply s db r next).2 ≡ db
or_reply-refused s db (err reply) next h = refl
or_reply-refused s db (ok a) next h = absurd h

-- The datastore does not show the session as the holder of the candidate's lock.
abbrev pub LacksLock : ℕ → Session → Database → Type 0
LacksLock now s db =
    (info : LockInfo)
    → get_lock_info now lock_target_candidate db ≡ ok info
    → (info.is_locked && str_eq info.session_id s.id) ≡ false

-- The requests that write a candidate or promote it.
abbrev pub NeedsLock : {Config : Type 0} → Rpc Config → Type 0
NeedsLock (edit_config _) = Unit {0}
NeedsLock (copy_config _) = Unit {0}
NeedsLock (delete_config _) = Unit {0}
NeedsLock (commits _ _ _) = Unit {0}
NeedsLock (discard_changes _) = Unit {0}
NeedsLock _ = ⊥

check_owner-IsErr :
    (sm : SessionManager) (now : ℕ) (s : Session) (r : Result ErrorCode LockInfo)
    → ((info : LockInfo) → r ≡ ok info → (info.is_locked && str_eq info.session_id s.id) ≡ false)
    → IsErr (check_owner sm now s r)
unfolding check_owner
check_owner-IsErr sm now s (err failure) h = tt
check_owner-IsErr sm now s (ok info) h =
    if-intro IsErr (not info.is_locked) (λ _. tt)
      λ locked.
        if-intro IsErr (not (str_eq info.session_id s.id)) (λ _. tt)
          λ own. ground (arith, h info refl, locked, own)

module _ (content : Content) (protect : String → Option String) (sm : SessionManager) (now : ℕ)
    (s : Session) (db : Database) (h : LacksLock now s db) where
  not_owned : IsErr (check_lock_ownership sm now s lock_target_candidate db)
  unfolding check_lock_ownership
  not_owned = check_owner-IsErr sm now s (get_lock_info now lock_target_candidate db) h

  handle_discard_changes-refused :
      (req : Result Reply (Unit {0})) → (handle_discard_changes sm now req s db).2 ≡ db
  unfolding handle_discard_changes
  handle_discard_changes-refused req = or_reply-refused s db _ _ (
      bind-IsErr req (λ _. check_lock_ownership sm now s lock_target_candidate db) (λ _. not_owned))

  handle_delete_config-refused :
      (req : Result Reply Target) → (handle_delete_config sm now req s db).2 ≡ db
  unfolding handle_delete_config
  handle_delete_config-refused req = or_reply-refused s db _ _ (
      bind-IsErr (req >>= get_datastore >>= check_candidate_target)
        (λ _. check_lock_ownership sm now s lock_target_candidate db) (λ _. not_owned))

  handle_commit-refused :
      (hook : Option CommitHook) (remote id : String) (req : Result Reply (Unit {0}))
      → (handle_commit content protect sm now hook remote id req s db).2 ≡ db
  unfolding handle_commit ready_to_commit
  handle_commit-refused hook remote id req = or_reply-refused s db _ _ (
      bind-IsErr req (λ _. ready_to_commit content protect sm now s db)
        (λ _. first-IsErr (check_lock_ownership sm now s lock_target_candidate db) _ not_owned))

  handle_edit_config-refused :
      (req : Result Reply (EditConfigRequest content.Config))
      → (handle_edit_config content protect sm now req s db).2 ≡ db
  unfolding handle_edit_config edited
  handle_edit_config-refused req = or_reply-refused s db _ _ (
      bind-IsErr req (edited content protect sm now s db) λ r.
        bind-IsErr (get_datastore r.target) _ λ target.
          bind-IsErr (check_candidate_target target) _
            λ _. first-IsErr (check_lock_ownership sm now s lock_target_candidate db) _ not_owned)

  handle_copy_config-refused :
      (req : Result Reply (CopyConfigRequest content.Config))
      → (handle_copy_config content protect sm now req s db).2 ≡ db
  unfolding handle_copy_config copied
  handle_copy_config-refused req = or_reply-refused s db _ _ (
      bind-IsErr req (copied content protect sm now s db) λ r.
        bind-IsErr (get_datastore r.target) _ λ target.
          bind-IsErr (check_candidate_target target) _
            λ _. first-IsErr (check_lock_ownership sm now s lock_target_candidate db) _ not_owned)

module _ (content : Content) (protect : String → Option String) (hook : Option CommitHook)
    (sort : List String → List String) (now : ℕ) where
  -- A request to write, delete, discard or commit the candidate leaves the datastore as it is, unless
  -- the datastore shows the session as the holder of the candidate's lock.
  pub run_handler-NeedsLock :
      (rpc : Rpc content.Config) (s : Session) (st : State)
      → NeedsLock rpc
      → LacksLock now s st.database
      → (run_handler content protect hook sort now rpc s st).1.database ≡ st.database
  unfolding run_handler
  run_handler-NeedsLock (edit_config req) s st n h =
      handle_edit_config-refused content protect st.manager now s st.database h req
  run_handler-NeedsLock (copy_config req) s st n h =
      handle_copy_config-refused content protect st.manager now s st.database h req
  run_handler-NeedsLock (delete_config req) s st n h =
      handle_delete_config-refused content protect st.manager now s st.database h req
  run_handler-NeedsLock (commits remote id req) s st n h =
      handle_commit-refused content protect st.manager now s st.database h hook remote id req
  run_handler-NeedsLock (discard_changes req) s st n h =
      handle_discard_changes-refused content protect st.manager now s st.database h req
  run_handler-NeedsLock _ s st n h = absurd n
