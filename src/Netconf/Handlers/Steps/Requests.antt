-- ===== src/Netconf/Handlers/Steps/Requests.antt =====
-- Requests to the NETCONF server and the end of a session, as steps of the server over the datastore.
use text.Mathlib.TextEquality.{eq_iff}
use arca_router.Prelude.{
  refl, arith, ℕ, List, Option, none, some, String, Result, ok, err, ◌≡◌, subst, ap, ◌∙◌, ◌==◌,
  if-elim, Option-intro,
}
use arca_router.Datastore.Table.{delete, key-select, select-update}
use arca_router.Netconf.Sessions.{
  Session, SessionManager, State, session_key, get, close, get_by_numeric_id, index_get, touch,
  update_last_used, close_session, close_session_by_numeric_id,
}
use arca_router.Netconf.Sessions.Releases.{IsSorter, close-Released}
use arca_router.Netconf.Sessions.Tracked.{
  Consistent, live-Covers, served-Consistent, closed-Consistent, touched-Consistent,
}
use arca_router.Netconf.Handlers.{
  Reply, Outcome, handle_lock, handle_unlock, handle_delete_config, handle_discard_changes,
}
use arca_router.Netconf.Handlers.Configs.{
  Content, CommitHook, handle_edit_config, handle_copy_config, handle_commit,
}
use arca_router.Netconf.Handlers.Dispatch.{
  Rpc, lock, unlock, edit_config, copy_config, delete_config, commits, discard_changes,
  kill_session, closes_session, get_rpc, get_config, validates, other, Operation, operation_of,
  check_rbac, handle_kill_session, write_back, run_handler, permitted, handle_rpc,
}
use arca_router.Netconf.Handlers.Serving.{
  Served, handle_lock-Served, handle_unlock-Served, handle_discard_changes-Served,
  handle_delete_config-Served, handle_commit-Served, handle_edit_config-Served,
  handle_copy_config-Served,
}
use arca_router.Netconf.Handlers.Hooks.{HookPersists}
use arca_router.Netconf.Handlers.Steps.{IsConsistent}

abbrev IfAny : (State → Type 0) → Option State → Type 0
IfAny P none = Unit {0}
IfAny P (some st) = P st

module _ (content : Content) (protect : String → Option String) (hook : Option CommitHook)
    (sort : List String → List String) (sorts : IsSorter sort) (law : HookPersists hook)
    (now : ℕ) where
  written-IsConsistent :
      (s : Session) (st : State) (out : Outcome)
      → IsConsistent st
      → get s.id st.manager ≡ some s
      → Served s st.database out
      → IsConsistent (write_back st out).1
  written-IsConsistent s st (reply, s', db') k live h =
      served-Consistent st.manager.sessions st.database k s s' db' live h

  live_name :
      (id : String) (sm : SessionManager) (s : Session) → get id sm ≡ some s → get s.id sm ≡ some s
  live_name id sm s e =
      let same : s.id ≡ id = key-select session_key id sm.sessions s e in
      ap (λ x. get x sm) same ∙ e

  closed-IsConsistent :
      (s : Session) (st : State)
      → IsConsistent st
      → get s.id st.manager ≡ some s
      → Consistent (delete session_key s.id st.manager.sessions) (close sort now s st.database)
  closed-IsConsistent s st k live =
      closed-Consistent st.manager.sessions st.database k s (close sort now s st.database) (
        close-Released sort now s st.database sorts k.tables
          (live-Covers st.manager.sessions st.database k s live))

  pub close_session-IsConsistent :
      (id : String) (st : State) → IsConsistent st → IsConsistent (close_session sort now id st)
  unfolding close_session
  close_session-IsConsistent id st k =
      Option-intro IsConsistent (get id st.manager) st _ (λ _. k)
        λ s e. closed-IsConsistent s st k (live_name id st.manager s e)

  found_by_number :
      (n : ℕ) (sm : SessionManager)
      → (s : Session) → get_by_numeric_id n sm ≡ some s
      → get s.id sm ≡ some s
  unfolding get_by_numeric_id
  found_by_number n sm =
      Option-intro (λ o. (s : Session) → o ≡ some s → get s.id sm ≡ some s)
        (index_get n sm.numeric_id_index) none (λ id. get id sm) (λ _ s e. cc)
        (λ id _ s e. live_name id sm s e)

  close_session_by_numeric_id-IsConsistent :
      (n : ℕ) (st : State)
      → IsConsistent st
      → IfAny IsConsistent (close_session_by_numeric_id sort now n st)
  unfolding close_session_by_numeric_id
  close_session_by_numeric_id-IsConsistent n st k =
      Option-intro (IfAny IsConsistent) (get_by_numeric_id n st.manager) none _ (λ _. tt)
        (λ s e. closed-IsConsistent s st k (found_by_number n st.manager s e))

  handle_kill_session-IsConsistent :
      (s : Session) (req : Result Reply ℕ) (st : State)
      → IsConsistent st
      → IsConsistent (handle_kill_session sort now s req st).1
  unfolding handle_kill_session
  handle_kill_session-IsConsistent s (err reply) st k = k
  handle_kill_session-IsConsistent s (ok n) st k =
      let P = λ (x : Reply × State). IsConsistent x.1 in
      if-elim P (n == 0) k (
        if-elim P (n == s.numeric_id) k (
          Option-intro P (close_session_by_numeric_id sort now n st) _ _ (λ _. k)
            (λ st' e.
              subst (IfAny IsConsistent) e (close_session_by_numeric_id-IsConsistent n st k))))

  run_handler-IsConsistent :
      (rpc : Rpc content.Config) (s : Session) (st : State)
      → IsConsistent st
      → get s.id st.manager ≡ some s
      → IsConsistent (run_handler content protect hook sort now rpc s st).1
  unfolding run_handler
  run_handler-IsConsistent rpc s st k live =
      let db = st.database in
      let sm = st.manager in
      let v = k.tables in
      let c = live-Covers sm.sessions db k s live in
      let keep = λ (out : Outcome). written-IsConsistent s st out k live in
      (elim rpc as (λ r. IsConsistent (run_handler content protect hook sort now r s st).1) [
        | lock req ↦ keep (handle_lock sm now req s db) (handle_lock-Served s db v c sm now req)
        | unlock req ↦
            keep (handle_unlock sm now req s db) (handle_unlock-Served s db v c sm now req)
        | edit_config req ↦
            keep (handle_edit_config content protect sm now req s db)
              (handle_edit_config-Served s db v c content protect sm now req)
        | copy_config req ↦
            keep (handle_copy_config content protect sm now req s db)
              (handle_copy_config-Served s db v c content protect sm now req)
        | delete_config req ↦
            keep (handle_delete_config sm now req s db)
              (handle_delete_config-Served s db v c sm now req)
        | commits remote id req ↦
            keep (handle_commit content protect sm now hook remote id req s db)
              (handle_commit-Served s db v c content protect sm now hook remote id req law)
        | discard_changes req ↦
            keep (handle_discard_changes sm now req s db)
              (handle_discard_changes-Served s db v c sm now req)
        | kill_session req ↦ handle_kill_session-IsConsistent s req st k
        | closes_session ↦ k
        | get_rpc reply ↦ k
        | get_config reply ↦ k
        | validates reply ↦ k
        | other ↦ k
      ])

  permitted-IsConsistent :
      (rpc : Rpc content.Config) (s : Session) (st : State) (operation : Option Operation)
      → IsConsistent st
      → get s.id st.manager ≡ some s
      → IsConsistent (permitted content protect hook sort now rpc s st operation).1
  permitted-IsConsistent rpc s st none k live = k
  permitted-IsConsistent rpc s st (some operation) k live =
      if-elim (λ (x : Reply × State). IsConsistent x.1) (check_rbac s.role operation)
        (run_handler-IsConsistent rpc s st k live) k

  touched_live :
      (s : Session) (st : State)
      → get s.id st.manager ≡ some s
      → get s.id (update_last_used now s.id st.manager) ≡ some (touch now s)
  unfolding update_last_used
  touched_live s st live =
      select-update session_key s.id s.id (touch now) st.manager.sessions (λ r. refl)
      ∙ ground (arith, live, eq_iff s.id s.id)

  pub handle_rpc-IsConsistent :
      (s : Session) (rpc : Rpc content.Config) (st : State)
      → IsConsistent st
      → get s.id st.manager ≡ some s
      → IsConsistent (handle_rpc content protect hook sort now s rpc st).1
  unfolding handle_rpc update_last_used
  handle_rpc-IsConsistent s rpc st k live =
      permitted-IsConsistent rpc (touch now s)
        (record st { manager = update_last_used now s.id st.manager }) (operation_of rpc)
        (touched-Consistent st.manager.sessions st.database k now s.id) (touched_live s st live)
