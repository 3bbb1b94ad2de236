-- ===== src/Netconf/Handlers/Steps.antt =====
-- The NETCONF server of pkg/netconf over the datastore, one event after the other: connections,
-- requests, the end of sessions, and the two clean-ups that run by a ticker.
pub mod Requests
pub mod Tracking
use text.Mathlib.Text.{◌==◌ as str_eq}
use arca_router.Prelude.{
  ℕ, Bool, true, false, List, [], ◌∷◌, Option, none, some, String, Result, ok, err, ◌≡◌, refl, sym,
  subst, ap, ◌∙◌, arith, ◌==◌, if◌then◌else◌, if-elim, Option-intro, inl, inr, Option-cases,
}
use arca_router.Datastore.Table.{delete, key-select, HasUniqueKeys}
use arca_router.Datastore.Schema.{Database, with_tx}
use arca_router.Datastore.Locks.{perform_lock_cleanup}
use arca_router.Datastore.Locks.Unlocks.{perform_lock_cleanup-lock_of}
use arca_router.Datastore.WellFormed.{WellFormed, Keeps}
use arca_router.Datastore.Invariant.Locks.{perform_lock_cleanup-WellFormed}
use arca_router.Netconf.Sessions.{
  Session, SessionManager, State, session_key, get, close, get_by_numeric_id, index_get, create,
  next_session_id, config_with_defaults, update_last_used, close_session,
  close_session_by_numeric_id, close_all, cleanup_expired_sessions,
}
use arca_router.Netconf.Sessions.Releases.{IsSorter, close-Released}
use arca_router.Netconf.Sessions.Tracked.{
  Consistent, live-Covers, served-Consistent, closed-Consistent, created-Consistent,
  touched-Consistent,
}
use arca_router.Netconf.Sessions.Expiry.{cleanup_expired_sessions-Consistent, close_all-Consistent}
use arca_router.Netconf.Handlers.{
  Reply, Outcome, handle_lock, handle_unlock, handle_delete_config, handle_discard_changes,
}
use arca_router.Netconf.Handlers.Configs.{
  Content, CommitHook, handle_edit_config, handle_copy_config, handle_commit,
}
use arca_router.Netconf.Handlers.Dispatch.{
  Rpc, lock, unlock, edit_config, copy_config, delete_config, commits, discard_changes,
  kill_session, closes_session, get_rpc, get_config, validates, other, Operation, operation_of,
  check_rbac, handle_kill_session, write_back, run_handler, permitted, handle_rpc,
}
use arca_router.Netconf.Handlers.Serving.{
  Served, handle_lock-Served, handle_unlock-Served, handle_discard_changes-Served,
  handle_delete_config-Served, handle_commit-Served, handle_edit_config-Served,
  handle_copy_config-Served,
}
use arca_router.Netconf.Handlers.Hooks.{HookPersists}

pub data Event (Config : Type 0) : Type 0 where
  -- The UUID, the name and the role of a new session.
  connects : String → String → String → Event Config
  -- A request on the connection of a session, which keeps the session's object.
  requests : Session → Rpc Config → Event Config
  disconnects : String → Event Config
  cleans_sessions cleans_locks shuts_down : Event Config

abbrev pub IsConsistent : State → Type 0
IsConsistent st = Consistent st.manager.sessions st.database

module _ (content : Content) (protect : String → Option String) (hook : Option CommitHook)
    (sort : List String → List String) where
  abbrev connected : ℕ → String → String → String → State → State
  connected now uuid username role st =
      let (_, counter, sm) = create now uuid username role st.counter st.manager in
      record st { manager = sm; counter = counter }

  unfoldable pub step : State → ℕ × Event content.Config → State
  unfolding create
  step st (now, connects uuid username role) = connected now uuid username role st
  step st (now, requests s rpc) = (handle_rpc content protect hook sort now s rpc st).1
  step st (now, disconnects id) = close_session sort now id st
  step st (now, cleans_sessions) = cleanup_expired_sessions sort now st
  step st (now, cleans_locks) = record st {
    database = (with_tx st.database (perform_lock_cleanup now st.database)).0;
  }
  step st (now, shuts_down) = close_all sort now st

  unfoldable pub run : State → List (ℕ × Event content.Config) → State
  run st [] = st
  run st (e ∷ es) = run (step st e) es

  -- A UUID that is drawn names no session of the manager, and a session that is served is one that
  -- the manager has not closed.
  abbrev pub IsOrderly : State → ℕ × Event content.Config → Type 0
  IsOrderly st (now, connects uuid username role) = get uuid st.manager ≡ none
  IsOrderly st (now, requests s rpc) = get s.id st.manager ≡ some s
  IsOrderly st (now, _) = Unit {0}

  abbrev pub AllOrderly : State → List (ℕ × Event content.Config) → Type 0
  AllOrderly st [] = Unit {0}
  AllOrderly st (e ∷ es) = IsOrderly st e × AllOrderly (step st e) es
