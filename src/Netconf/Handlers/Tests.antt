-- ===== src/Netconf/Handlers/Tests.antt =====
-- Two sessions over the small datastore, and the theorems of the sessions and the handlers at them.
use text.Mathlib.Text.{◌==◌ as str_eq}
use text.Mathlib.TextEquality.{eq_iff}
use arca_router.Prelude.{
  ℕ, true, false, List, [], ◌∷◌, none, some, String, ok, ◌≡◌, refl, subst, ◌&&◌, arith, Bool-cases,
  inl, inr, ◌⊎◌, ◌-◌, ◌<◌, ◌≤◌, ◌≢◌,
}
use arca_router.Datastore.Table.{select, update, replace}
use arca_router.Datastore.Schema.{is_lock_target, LockInfo, LockRow}
use arca_router.Datastore.Locks.{get_lock_info, lock_of}
use arca_router.Datastore.Tests.{lock_of_ann, editing, editing-WellFormed, seconds, bob_ne_ann}
use arca_router.Netconf.Sessions.{
  config_with_defaults, Session, SessionManager, State, get, index_get, has_lock,
  default_ssh_config, close_session, cleanup_expired_sessions,
}
use arca_router.Netconf.Sessions.Releases.{IsSorter}
use arca_router.Netconf.Sessions.Expiry.{get-cleanup_expired_sessions}
use arca_router.Netconf.Sessions.Closing.{Closed, close_session-Closed}
use arca_router.Netconf.Sessions.Index.{Indexed}
use arca_router.Netconf.Sessions.Index.Runs.{
  ManagerCall, creates, uses, kills, cleans, run as run_calls, run-Indexed,
}
use arca_router.Netconf.Handlers.{
  Target, lock_denied, get_datastore, handle_lock, session_id_to_numeric,
}
use arca_router.Netconf.Handlers.Configs.{Content}
use arca_router.Netconf.Handlers.Dispatch.{Rpc, lock, discard_changes, run_handler}
use arca_router.Netconf.Handlers.Steps.{
  Event, connects, requests, disconnects, cleans_locks, IsConsistent, step, run,
}
use arca_router.Netconf.Handlers.Steps.Tracking.{run-IsConsistent}
use arca_router.Netconf.Handlers.Permissions.{run_handler-NeedsLock}
use arca_router.Netconf.Handlers.Denial.{handle_lock-denied}

abbrev session_of : String → ℕ → String → String → List String → Session
session_of id number username role locks = record {
  id = id;
  numeric_id = number;
  username = username;
  role = role;
  created_at = seconds 100;
  last_used = seconds 100;
  idle_timeout = seconds 1800;
  absolute_timeout = seconds 86400;
  base_version = "1.1";
  datastore_locks = locks;
}

abbrev ann : Session
ann = session_of "s1" 1 "ann" "operator" ("candidate" ∷ [])

abbrev bob : Session
bob = session_of "s2" 2 "bob" "read-only" []

abbrev two_sessions : SessionManager
two_sessions = record {
  sessions = ann ∷ bob ∷ [];
  numeric_id_index =
      record { numeric_id = 1; id = "s1" } ∷ record { numeric_id = 2; id = "s2" } ∷ [];
  config = default_ssh_config;
}

abbrev serving : State
serving = record { manager = two_sessions; counter = 2; database = editing }

abbrev as_is : List String → List String
as_is ts = ts

as_is-IsSorter : IsSorter as_is
as_is-IsSorter t ts = refl

-- Configurations as their texts.
abbrev texts : Content
texts = record {
  Config = String;
  text_to_config = λ t. some t;
  config_to_text = λ t. some t;
  validate_config_semantics = λ t. none;
  apply_config_edit = λ old new operation. ok new;
}

serving-IsConsistent : IsConsistent serving
unfolding select has_lock is_lock_target
serving-IsConsistent = record {
  unique = (refl, (refl, tt));
  tables = editing-WellFormed;
  tracked = λ t row f. elim (Bool-cases (str_eq "candidate" t)) [
    | inl here ↦
        let e : some lock_of_ann ≡ some row = ground (arith, f, here) in
        let name : "s1" ≡ row.session_id = cc e in
        let named : str_eq "s1" row.session_id ≡ true = (eq_iff "s1" row.session_id).1 name in
        (ground (arith, here, eq_iff "candidate" t), (ann, rw named refl, ground (arith, here)))
    | inr there ↦ let lost : none ≡ some row = ground (arith, f, there) in absurd cc
  ];
}

abbrev candidate_target : Target
candidate_target = record { running = false; candidate = true; startup = false }

abbrev session_texts : Rpc String
session_texts = lock (ok candidate_target)

abbrev eve : Session
eve = record (session_of "s3" 3 "eve" "admin" []) {
  created_at = seconds 150;
  last_used = seconds 150;
}

-- A new session locks the running configuration and is closed.
abbrev session_events : List (ℕ × Event String)
session_events =
    (seconds 150, connects "s3" "eve" "admin")
    ∷ (
      seconds 151,
      requests eve (lock (ok (record { running = true; candidate = false; startup = false }))),
    )
    ∷ (seconds 152, cleans_locks)
    ∷ (seconds 153, disconnects "s3")
    ∷ []

run-IsConsistent_example : IsConsistent (run texts some none as_is serving session_events)
unfolding select update step config_with_defaults replace
run-IsConsistent_example =
    run-IsConsistent texts some none as_is as_is-IsSorter tt serving session_events
      serving-IsConsistent (refl, (refl, (tt, (tt, tt))))

close_session-Closed_example :
    Closed (seconds 150) "s1" serving (close_session as_is (seconds 150) "s1" serving)
close_session-Closed_example =
    close_session-Closed as_is (seconds 150) "s1" serving as_is-IsSorter serving-IsConsistent

get-cleanup_expired_sessions_example :
    let st' = cleanup_expired_sessions as_is (seconds 2000) serving in
    ((ann.absolute_timeout < seconds 2000 - ann.created_at)
        ⊎ (ann.idle_timeout < seconds 2000 - ann.last_used)
      → (get "s1" st'.manager ≡ none)
        × ((t : String) (row : LockRow)
            → lock_of st'.database t ≡ some row
            → row.session_id ≢ "s1"))
    × (seconds 2000 - ann.created_at ≤ ann.absolute_timeout
        → seconds 2000 - ann.last_used ≤ ann.idle_timeout
        → get "s1" st'.manager ≡ some ann)
unfolding select
get-cleanup_expired_sessions_example =
    get-cleanup_expired_sessions as_is as_is-IsSorter (seconds 2000) serving serving-IsConsistent
      "s1" ann refl

abbrev empty_manager : State
empty_manager = record {
  manager = record { sessions = []; numeric_id_index = []; config = default_ssh_config };
  counter = 0;
  database = editing;
}

empty_manager-Indexed : Indexed empty_manager.manager
unfolding select index_get
empty_manager-Indexed = record { unique = tt; leads = λ n id f. cc; listed = λ id s f. cc }

abbrev manager_calls : List (ℕ × ManagerCall)
manager_calls =
    (seconds 100, creates "s1" "ann" "operator")
    ∷ (seconds 101, uses "s1")
    ∷ (seconds 102, kills 1)
    ∷ (seconds 103, cleans)
    ∷ []

run-Indexed_example : Indexed (run_calls as_is empty_manager manager_calls).manager
unfolding select index_get
run-Indexed_example =
    run-Indexed as_is empty_manager manager_calls empty_manager-Indexed
      ((refl, refl), (tt, (tt, (tt, tt))))

abbrev ann_info : LockInfo
ann_info = record {
  is_locked = true;
  session_id = "s1";
  user = "ann";
  acquired_at = seconds 100;
  expires_at = seconds 1900;
}

run_handler-NeedsLock_example :
    (run_handler texts some none as_is
      (seconds 150)
      (discard_changes (ok tt))
      bob
      serving).1.database
    ≡ editing
unfolding get_lock_info select is_lock_target
run_handler-NeedsLock_example =
    run_handler-NeedsLock texts some none as_is (seconds 150) (discard_changes (ok tt)) bob serving
      tt
      (λ info e.
        let same : ann_info ≡ info = cc e in
        subst (λ i. (i.is_locked && str_eq i.session_id "s2") ≡ false) same refl)

handle_lock-denied_example :
    handle_lock two_sessions (seconds 150) (ok candidate_target) bob editing
    ≡ (lock_denied 1, bob, editing)
unfolding get_datastore session_id_to_numeric select is_lock_target
handle_lock-denied_example =
    handle_lock-denied two_sessions (seconds 150) bob editing "candidate" "s1"
      (record { lock = lock_of_ann; found = refl; valid = refl; owner = refl }) bob_ne_ann refl refl
      (ok candidate_target) refl
