-- ===== src/Netconf/Handlers/Dispatch.antt =====
-- HandleRPC, checkRBAC and handleKillSession of pkg/netconf/server.go. The handlers of <get>,
-- <get-config> and <validate> change nothing: a request for one of them carries its reply.
use text.Mathlib.Text.{◌==◌ as str_eq}
use arca_router.Prelude.{
  ℕ, Bool, true, false, List, Option, none, some, String, Result, ok, err, ◌==◌, if◌then◌else◌,
}
use arca_router.Datastore.Table.{update}
use arca_router.Netconf.Sessions.{
  Session, State, session_key, touch, update_last_used, close_session_by_numeric_id,
}
use arca_router.Netconf.Handlers.{
  Reply, Target, Outcome, handle_lock, handle_unlock, handle_discard_changes, handle_delete_config,
  invalid_value, ok_reply, access_denied, unknown_rpc,
}
use arca_router.Netconf.Handlers.Configs.{
  Content, CommitHook, EditConfigRequest, CopyConfigRequest, handle_commit, handle_edit_config,
  handle_copy_config,
}

pub data Rpc (Config : Type 0) : Type 0 where
  lock unlock : Result Reply Target → Rpc Config
  edit_config : Result Reply (EditConfigRequest Config) → Rpc Config
  copy_config : Result Reply (CopyConfigRequest Config) → Rpc Config
  delete_config : Result Reply Target → Rpc Config
  -- The peer's address and the id that a commit draws come first.
  commits : String → String → Result Reply (Unit {0}) → Rpc Config
  discard_changes : Result Reply (Unit {0}) → Rpc Config
  kill_session : Result Reply ℕ → Rpc Config
  closes_session : Rpc Config
  get_rpc get_config validates : Reply → Rpc Config
  other : Rpc Config

pub data Operation : Type 0 where
  get_config_op get_op lock_op unlock_op edit_config_op validate_op commit_op discard_changes_op :
      Operation
  copy_config_op delete_config_op close_session_op kill_session_op : Operation

abbrev pub operation_of : {Config : Type 0} → Rpc Config → Option Operation
operation_of (lock _) = some lock_op
operation_of (unlock _) = some unlock_op
operation_of (edit_config _) = some edit_config_op
operation_of (copy_config _) = some copy_config_op
operation_of (delete_config _) = some delete_config_op
operation_of (commits _ _ _) = some commit_op
operation_of (discard_changes _) = some discard_changes_op
operation_of (kill_session _) = some kill_session_op
operation_of closes_session = some close_session_op
operation_of (get_rpc _) = some get_op
operation_of (get_config _) = some get_config_op
operation_of (validates _) = some validate_op
operation_of other = none

unfoldable pub read_only_ops : Operation → Bool
read_only_ops get_config_op = true
read_only_ops get_op = true
read_only_ops _ = false

unfoldable pub operator_ops : Operation → Bool
operator_ops kill_session_op = false
operator_ops _ = true

-- `checkRBAC`: whether the role may do it. The table of the admin role has every operation.
unfoldable pub check_rbac : String → Operation → Bool
check_rbac role operation =
    if str_eq role "read-only"
    then read_only_ops operation
    else if str_eq role "operator"
    then operator_ops operation
    else str_eq role "admin"

-- `handleKillSession`
unfoldable pub handle_kill_session :
    (List String → List String) → ℕ → Session → Result Reply ℕ → State → Reply × State
handle_kill_session sort now s (err reply) st = (reply, st)
handle_kill_session sort now s (ok n) st =
    if n == 0
    then (invalid_value, st)
    else if n == s.numeric_id
    then (invalid_value, st)
    else elim (close_session_by_numeric_id sort now n st) [
      | none ↦ (invalid_value, st)
      | some st' ↦ (ok_reply, st')
    ]

-- A handler works on the object of its session, in the manager's map.
abbrev pub write_back : State → Outcome → Reply × State
write_back st (reply, s, db) = (
  reply,
  record st {
    manager = record st.manager { sessions = update session_key s.id (λ _. s) st.manager.sessions };
    database = db;
  },
)

module _ (content : Content) (protect : String → Option String) (hook : Option CommitHook)
    (sort : List String → List String) (now : ℕ) where
  unfoldable pub run_handler : Rpc content.Config → Session → State → Reply × State
  run_handler (kill_session req) s st = handle_kill_session sort now s req st
  run_handler (lock req) s st = write_back st (handle_lock st.manager now req s st.database)
  run_handler (unlock req) s st = write_back st (handle_unlock st.manager now req s st.database)
  run_handler (edit_config req) s st =
      write_back st (handle_edit_config content protect st.manager now req s st.database)
  run_handler (copy_config req) s st =
      write_back st (handle_copy_config content protect st.manager now req s st.database)
  run_handler (delete_config req) s st =
      write_back st (handle_delete_config st.manager now req s st.database)
  run_handler (commits remote id req) s st =
      write_back st (handle_commit content protect st.manager now hook remote id req s st.database)
  run_handler (discard_changes req) s st =
      write_back st (handle_discard_changes st.manager now req s st.database)
  run_handler closes_session s st = (ok_reply, st)
  run_handler (get_rpc reply) s st = (reply, st)
  run_handler (get_config reply) s st = (reply, st)
  run_handler (validates reply) s st = (reply, st)
  run_handler other s st = (unknown_rpc, st)

  -- The check of the role, and the handler.
  abbrev pub permitted : Rpc content.Config → Session → State → Option Operation → Reply × State
  permitted rpc s st none = (unknown_rpc, st)
  permitted rpc s st (some operation) =
      if check_rbac s.role operation then run_handler rpc s st else (access_denied, st)

  -- `HandleRPC` for the object of a session, which the connection keeps also where the manager has
  -- closed the session. Only where it has not, the manager's map shows the time of the last use.
  unfoldable pub handle_rpc : Session → Rpc content.Config → State → Reply × State
  unfolding update_last_used
  handle_rpc s rpc st =
      permitted rpc (touch now s) (record st { manager = update_last_used now s.id st.manager })
        (operation_of rpc)
