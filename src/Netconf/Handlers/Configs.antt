-- ===== src/Netconf/Handlers/Configs.antt =====
-- The handlers of pkg/netconf/rpc_transaction.go and rpc_config.go that read or write a configuration.
use Prim.Native.String.{◌++◌ as str_append}
use text.Mathlib.Text.{◌==◌ as str_eq}
use arca_router.Prelude.{
  ℕ, Bool, true, false, List, [], ◌∷◌, Option, none, some, String, Result, ok, err, ◌>>=◌,
  if◌then◌else◌,
}
use arca_router.Datastore.Schema.{
  ErrorCode, not_found, lock_target_candidate, lock_target_running, CommitRequest, CandidateRow,
  Database, with_tx,
}
use arca_router.Datastore.Commits.{commit, get_candidate, get_running, save_candidate}
use arca_router.Netconf.Sessions.{Session, SessionManager, remove_lock}
use arca_router.Netconf.Handlers.{
  Reply, Target, Outcome, or_reply, or_datastore_error, get_datastore, check_candidate_target,
  check_lock_ownership, startup_datastore, operation_failed, datastore_error, startup_not_supported,
  invalid_target, validation_failed, backend_validation_failed, operation_not_supported, ok_reply,
}

-- How a commit fails: in the datastore, or in a backend of the hook.
pub data CommitFailure : Type 0 where
  datastore_failure : ErrorCode → CommitFailure
  backend_failure : CommitFailure

abbrev pub commit_failure_error : CommitFailure → Reply
commit_failure_error (datastore_failure _) = datastore_error
commit_failure_error backend_failure = backend_validation_failed

abbrev pub Persist : Type 0
Persist = Database → Database × Result ErrorCode String

-- `commitHook` gets the request, the text of the candidate and the function that stores it.
abbrev pub CommitHook : Type 0
CommitHook = CommitRequest → String → Persist → Database → Database × Result CommitFailure String

abbrev pub without_hook :
    Database × Result ErrorCode String → Database × Result CommitFailure String
without_hook (db, ok id) = (db, ok id)
without_hook (db, err e) = (db, err (datastore_failure e))

unfoldable pub persist_by : Option CommitHook → CommitHook
persist_by none req text persist db = without_hook (persist db)
persist_by (some hook) req text persist db = hook req text persist db

-- The functions of pkg/netconf that read, write, merge and check a configuration.
pub record Content : Type 1 where
  pub Config : Type 0
  pub text_to_config : String → Option Config
  pub config_to_text : Config → Option String
  pub validate_config_semantics : Config → Option Reply
  pub apply_config_edit : Config → Config → String → Result Reply Config

abbrev not_valid : Option Reply → Result Reply (Unit {0})
not_valid none = ok tt
not_valid (some reply) = err reply

-- The texts that `edit-config` knows for an option, and the one it takes where the option is absent.
unfoldable pub option_of : List String → String → Option String → Result Reply String
option_of known default none = ok default
option_of [] default (some text) = err operation_not_supported
option_of (k ∷ known) default (some text) =
    if str_eq k text then ok text else option_of known default (some text)

-- `EditConfigRequest`: the options with their spaces trimmed, and what XMLToConfig makes of the inline
-- configuration under the default operation.
pub record EditConfigRequest (Config : Type 0) : Type 0 where
  pub target : Target
  pub test_option : Option String
  pub error_option : Option String
  pub default_operation : Option String
  pub config : String → Result Reply Config

-- `Source`: an inline configuration, as converted, or a datastore.
pub data Source (Config : Type 0) : Type 0 where
  inline : Result Reply Config → Source Config
  stored : Target → Source Config

-- `CopyConfigRequest`
pub record CopyConfigRequest (Config : Type 0) : Type 0 where
  pub target : Target
  pub source : Source Config

unfoldable pub read_running : Bool → Result ErrorCode String → Result Reply String
read_running empty_on_missing (ok text) = ok text
read_running empty_on_missing (err not_found) =
    if empty_on_missing then ok "" else err operation_failed
read_running empty_on_missing (err _) = err datastore_error

-- `readRunningConfigText`
unfoldable pub read_running_config_text : Bool → Database → Result Reply String
read_running_config_text empty_on_missing db =
    read_running empty_on_missing (get_running db >>= λ row. ok row.config_text)

unfoldable pub read_candidate :
    Result Reply String → Result ErrorCode CandidateRow → Result Reply String
read_candidate running (ok row) = ok row.config_text
read_candidate running (err not_found) = running
read_candidate running (err _) = err datastore_error

-- `readCandidateOrRunningConfigText`
unfoldable pub read_candidate_or_running : String → Database → Result Reply String
read_candidate_or_running id db =
    read_candidate (read_running_config_text true db) (get_candidate id db)

module _ (content : Content) (protect : String → Option String) (sm : SessionManager)
    (now : ℕ) where
  abbrev or_error : {A : Type 0} → Reply → Option A → Result Reply A
  or_error reply (some a) = ok a
  or_error reply none = err reply

  -- The text of the candidate, if a commit may go ahead.
  unfoldable pub ready_to_commit : Session → Database → Result Reply String
  ready_to_commit s db = do
    _ ← check_lock_ownership sm now s lock_target_candidate db
    text ← read_candidate (err operation_failed) (get_candidate s.id db)
    config ← or_error validation_failed (content.text_to_config text)
    _ ← not_valid (content.validate_config_semantics config)
    ok text

  -- `remote` is the address of the peer, `id` the commit id that the datastore draws.
  abbrev pub commit_request : String → Session → CommitRequest
  commit_request remote s = record {
    session_id = s.id;
    user = s.username;
    message = str_append "NETCONF commit by " s.username;
    source_ip = remote;
    correlation_id = "";
  }

  -- What follows the hook or the commit.
  abbrev pub after_commit : Session → Database × Result CommitFailure String → Outcome
  after_commit s (db, err failure) = (commit_failure_error failure, s, db)
  after_commit s (db, ok _) = (ok_reply, remove_lock lock_target_candidate s, db)

  unfoldable pub commit_on :
      Option CommitHook → String → String → String → Session → Database → Outcome
  commit_on hook remote id text s db =
      let req = commit_request remote s in
      let persist : Persist = λ d. with_tx d (commit now id (some req) d) in
      after_commit s (persist_by hook req text persist db)

  -- `req` tells whether the request was decoded and asks for none of the options that
  -- `unsupportedCommitOption` refuses.
  unfoldable pub handle_commit :
      Option CommitHook → String → String → Result Reply (Unit {0}) → Session → Database → Outcome
  handle_commit hook remote id req s db =
      or_reply s db (req >>= λ _. ready_to_commit s db) λ text. commit_on hook remote id text s db

  unfoldable pub to_save : String → content.Config → Result Reply (Option String)
  to_save test merged =
      if str_eq test "test-only"
      then ok none
      else or_error datastore_error (content.config_to_text merged) >>= (λ out. ok (some out))

  -- The checks and the merge of `handleEditConfig`: the text to save, or `none` for a mere test.
  unfoldable pub edited :
      Session → Database → EditConfigRequest content.Config → Result Reply (Option String)
  edited s db req = do
    target ← get_datastore req.target
    _ ← check_candidate_target target
    _ ← check_lock_ownership sm now s lock_target_candidate db
    test ← option_of ("set" ∷ "test-then-set" ∷ "test-only" ∷ []) "test-then-set" req.test_option
    _ ←
        option_of ("stop-on-error" ∷ "continue-on-error" ∷ "rollback-on-error" ∷ []) "stop-on-error"
          req.error_option
    operation ← option_of ("merge" ∷ "replace" ∷ "none" ∷ []) "merge" req.default_operation
    new ← req.config operation
    text ← read_candidate_or_running s.id db
    old ← or_error datastore_error (content.text_to_config text)
    merged ← content.apply_config_edit old new operation
    _ ← not_valid (content.validate_config_semantics merged)
    to_save test merged

  abbrev pub save : Session → Database → Option String → Outcome
  save s db none = (ok_reply, s, db)
  save s db (some text) =
      or_datastore_error s db (save_candidate protect now s.id text db) (λ db'. (ok_reply, s, db'))

  unfoldable pub handle_edit_config :
      Result Reply (EditConfigRequest content.Config) → Session → Database → Outcome
  handle_edit_config req s db = or_reply s db (req >>= edited s db) (save s db)

  abbrev parsed : Result Reply String → Result Reply (String × content.Config)
  parsed read = do
    text ← read
    config ← or_error validation_failed (content.text_to_config text)
    ok (text, config)

  unfoldable pub source_text : Session → Database → String → Result Reply String
  source_text s db source =
      if str_eq source lock_target_running
      then read_running_config_text false db
      else if str_eq source lock_target_candidate
      then read_candidate_or_running s.id db
      else if str_eq source startup_datastore
      then err startup_not_supported
      else err invalid_target

  -- The source of `handleCopyConfig`, as the text to save and as a configuration.
  unfoldable pub source_of :
      Session → Database → Source content.Config → Result Reply (String × content.Config)
  source_of s db (inline converted) = do
    config ← converted
    text ← or_error datastore_error (content.config_to_text config)
    ok (text, config)
  source_of s db (stored source) = parsed (get_datastore source >>= source_text s db)

  unfoldable pub copied :
      Session → Database → CopyConfigRequest content.Config → Result Reply (Option String)
  copied s db req = do
    target ← get_datastore req.target
    _ ← check_candidate_target target
    _ ← check_lock_ownership sm now s lock_target_candidate db
    source ← source_of s db req.source
    _ ← not_valid (content.validate_config_semantics source.1)
    ok (some source.0)

  unfoldable pub handle_copy_config :
      Result Reply (CopyConfigRequest content.Config) → Session → Database → Outcome
  handle_copy_config req s db = or_reply s db (req >>= copied s db) (save s db)
