-- ===== src/Daemon/Tests.antt =====
-- A commit by a daemon without plugins whose configurations are texts.
use text.Mathlib.Text.{◌==◌ as str_eq}
use arca_router.Prelude.{Bool, true, not, [], Option, none, some, String, refl}
use arca_router.Datastore.Table.{select}
use arca_router.Datastore.Commits.{get_candidate}
use arca_router.Datastore.Schema.{CommitRequest}
use arca_router.Datastore.Tests.{editing, editing-WellFormed, seconds}
use arca_router.Engine.{ConfigModel, Engine}
use arca_router.Daemon.{commit_hook}
use arca_router.Daemon.Agreement.{Agrees, persist, commit_hook-Agrees}

abbrev differs : Option String → String → Bool
differs none new = true
differs (some old) new = not (str_eq old new)

abbrev texts : ConfigModel String Bool
texts = record {
  validate_config = λ c. none;
  compute_diff = differs;
  has_changes = λ d. d;
  hash = λ c. [];
}

abbrev idle : Engine String Bool (Unit {0})
idle = record { running = none; plugins = []; version = 4 }

abbrev request : CommitRequest
request = record {
  session_id = "s1";
  user = "ann";
  message = "note";
  source_ip = "";
  correlation_id = "";
}

-- The session with the lock commits its candidate, `set a`, over the running `set b`.
commit_hook-Agrees_example :
    Agrees texts
      (λ t. some t)
      ""
      idle
      editing
      "set a"
      (commit_hook texts
        (λ t. some t)
        ""
        (seconds 150)
        "ann"
        "note"
        (persist texts (λ t. some t) "" idle editing (seconds 150) "c2" request)
        "set a"
        idle
        tt
        editing)
unfolding select get_candidate
commit_hook-Agrees_example =
    commit_hook-Agrees texts (λ t. some t) "" idle editing (seconds 150) "c2" request "set a" _ tt
      editing-WellFormed refl refl
