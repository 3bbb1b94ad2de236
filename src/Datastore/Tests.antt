-- ===== src/Datastore/Tests.antt =====
-- A small datastore, runs of its calls, and the theorems at it.
use arca_router.Prelude.{
  ℕ, ◌+◌, ◌*◌, true, false, [], ◌∷◌, some, String, ok, err, ◌≡◌, ◌≢◌, refl, arith,
}
use text.Mathlib.TextEquality.{eq_iff}
use arca_router.Datastore.Table.{select, insert}
use arca_router.Datastore.Schema.{
  conflict, nanoseconds, LockRow, LockRequest, CandidateRow, HistoryRow, CommitRequest,
  RollbackRequest, Database, is_lock_target, with_tx,
}
use arca_router.Datastore.Locks.{acquire_lock, release_lock, extend_lock, get_lock_info, no_lock}
use arca_router.Datastore.Locks.Exclusion.{Holds, refused, get_lock_info_early}
use arca_router.Datastore.Commits.{
  check_lock_owner, check_session, clear_current, has_current, insert_current, promote, commit,
  rollback, get_commit, get_candidate,
}
use arca_router.Datastore.Commits.Facts.{HoldsLock}
use arca_router.Datastore.Commits.Effects.{Committed, commit-Committed, Promotes, rollback-Promotes}
use arca_router.Datastore.Commits.Outcome.{commit_refused, commit_total}
use arca_router.Datastore.WellFormed.{WellFormed}
use arca_router.Datastore.Steps.{commits, step}
use arca_router.Datastore.Steps.Held.{Owned}
use arca_router.Datastore.Steps.Stability.{step-Owned}

abbrev pub lock_of_ann : LockRow
lock_of_ann = record {
  target = "candidate";
  session_id = "s1";
  user = "ann";
  acquired_at = 100;
  expires_at = 1900;
  last_activity = 100;
}

abbrev candidate_of_ann : CandidateRow
candidate_of_ann = record {
  session_id = "s1";
  config_text = "set a";
  created_at = 100;
  updated_at = 100;
}

abbrev first_commit : HistoryRow
first_commit = record {
  commit_id = "c1";
  user = "bob";
  timestamp = 50;
  message = "";
  config_text = "set b";
  is_rollback = false;
  source_ip = "";
}

abbrev pub editing : Database
editing = record {
  config_locks = lock_of_ann ∷ [];
  candidate_configs = candidate_of_ann ∷ [];
  running_config =
      record { commit_id = "c1"; config_text = "set b"; timestamp = 50; is_current = true } ∷ [];
  commit_history = first_commit ∷ [];
  audit_log = [];
}

abbrev commit_request : String → CommitRequest
commit_request s = record {
  session_id = s;
  user = "u";
  message = "";
  source_ip = "";
  correlation_id = "";
}

abbrev rollback_request : String → RollbackRequest
rollback_request s = record {
  session_id = s;
  commit_id = "c1";
  user = "u";
  message = "";
  source_ip = "";
  correlation_id = "";
}

abbrev lock_request : LockRequest
lock_request = record { target = "running"; session_id = "s2"; user = "bob"; timeout = 0 }

abbrev pub seconds : ℕ → ℕ
seconds n = n * nanoseconds

pub editing-WellFormed : WellFormed editing
unfolding select
editing-WellFormed = record {
  locks = (refl, tt);
  candidates = (refl, tt);
  running = (refl, tt);
  history = (refl, tt);
  one_current = ((λ _. unfold has_current in refl), tt);
  current = unfold has_current in refl;
  recorded = ((first_commit, refl, refl), tt);
}

ann-HoldsLock : HoldsLock (seconds 150) "s1" editing
unfolding select
ann-HoldsLock = record { lock = lock_of_ann; found = refl; valid = refl; owner = refl }

pub ann-Holds : Holds (seconds 150) "candidate" "s1" editing
unfolding select
ann-Holds = record { lock = lock_of_ann; found = refl; valid = refl; owner = refl }

late-Holds : Holds (seconds 1900 + 5) "candidate" "s1" editing
unfolding select
late-Holds = record { lock = lock_of_ann; found = refl; valid = refl; owner = refl }

pub bob_ne_ann : ◌≢◌ {A = String} "s2" "s1"
bob_ne_ann = ground (arith, eq_iff "s2" "s1")

refused_example :
    (acquire_lock
        (seconds 150)
        (some (record { target = "candidate"; session_id = "s2"; user = "bob"; timeout = 9 }))
        editing
      ≡ err conflict)
    × (release_lock (seconds 150) "candidate" "s2" editing ≡ err conflict)
    × (extend_lock (seconds 150) "candidate" "s2" 9 editing ≡ err conflict)
refused_example =
    refused (seconds 150) "candidate" "s1" "s2" "bob" 9 editing (unfold is_lock_target in refl)
      ann-Holds bob_ne_ann

get_lock_info_early_example :
    (get_lock_info (seconds 1900 + 5) "candidate" editing ≡ ok no_lock)
    × (acquire_lock
          (seconds 1900 + 5)
          (some (record { target = "candidate"; session_id = "s2"; user = "bob"; timeout = 9 }))
          editing
        ≡ err conflict)
unfolding late-Holds
get_lock_info_early_example =
    get_lock_info_early (seconds 1900 + 5) "candidate" "s1" "s2" "bob" 9 editing
      (unfold is_lock_target in refl) late-Holds refl (omega arith) bob_ne_ann

step-Owned_example :
    Owned "candidate" "s1"
      (step some editing (seconds 150, commits "c2" (some (commit_request "s2"))))
step-Owned_example =
    step-Owned some (seconds 150) "candidate" "s1" editing
      (commits "c2" (some (commit_request "s2"))) editing-WellFormed ann-Holds (λ e. bob_ne_ann e.1)

commit-Committed_example :
    HoldsLock (seconds 150) "s1" editing
    × Committed
        (seconds 150)
        "c2"
        (commit_request "s1")
        editing
        (with_tx editing (commit (seconds 150) "c2" (some (commit_request "s1")) editing)).0
unfolding commit check_lock_owner promote insert_current clear_current has_current insert
commit-Committed_example =
    commit-Committed (seconds 150) "c2" (commit_request "s1") editing editing-WellFormed refl

rollback-Promotes_example :
    HoldsLock (seconds 150) "s1" editing
    × ((target : HistoryRow) × (get_commit "c1" editing ≡ ok target)
        × Promotes "c2" target.config_text editing
            (with_tx editing (rollback (seconds 150) "c2" (some (rollback_request "s1")) editing)).0
        × ((with_tx editing (
              rollback
                (seconds 150)
                "c2"
                (some (rollback_request "s1"))
                editing)).0.candidate_configs
            ≡ editing.candidate_configs))
unfolding rollback check_session get_commit check_lock_owner promote insert_current clear_current
    has_current insert
rollback-Promotes_example =
    rollback-Promotes (seconds 150) "c2" (rollback_request "s1") editing editing-WellFormed refl

commit_refused_example :
    (commit (seconds 1950) "c2" (some (commit_request "s1")) editing ≡ err conflict)
    × (rollback (seconds 1950) "c2" (some (rollback_request "s1")) editing ≡ err conflict)
unfolding select get_commit
commit_refused_example =
    commit_refused (seconds 1950) "c2" (commit_request "s1") (rollback_request "s1") first_commit
      editing expired refl refl
  where
    expired : ¬ HoldsLock (seconds 1950) "s1" editing
    expired h = ground (arith, h.valid, h.found)

commit_total_example :
    (db' : Database) × (commit (seconds 150) "c2" (some (commit_request "s1")) editing
      ≡ ok ("c2", db'))
unfolding select get_candidate
commit_total_example =
    commit_total (seconds 150) "c2" (commit_request "s1") candidate_of_ann editing ann-HoldsLock
      refl refl refl
