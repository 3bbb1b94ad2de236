-- ===== src/Engine/Tests.antt =====
-- Runs of the engine over plugins that keep a log: configurations are host names, the difference is
-- the new one, and a plugin puts its name on the log or takes it off.
use text.Mathlib.Text.{◌==◌ as str_eq}
use arca_router.Prelude.{
  List, [], ◌∷◌, none, some, String, true, false, not, ok, err, ◌≡◌, refl, drop, if◌then◌else◌, ◌⊎◌,
}
use arca_router.Engine.{
  Plugin, Engine, ConfigModel, ApplyError, apply_failed, apply_error, apply, validate, new_engine,
  apply_plugins, apply_config, apply_changes, rollback, validate_plugins, check_config,
  commit_running, running_config,
}
use arca_router.Engine.Transaction.{Applies, nothing, next}
use arca_router.Engine.Outcome.{apply_atomic, apply_commits, apply_complete}

abbrev names : ConfigModel String String
names = record {
  validate_config = λ name. if str_eq name "" then some "no host name" else none;
  compute_diff = λ old name. elim old [
    | none ↦ name
    | some running ↦ if str_eq running name then "" else name
  ];
  has_changes = λ diff. not (str_eq diff "");
  hash = λ _. [];
}

-- Refuses the difference `unsupported`, and fails half way on the difference `broken`.
abbrev logging : String → String → String → Plugin String (List String)
logging name unsupported broken = record {
  name = name;
  validate_changes = λ diff _. if str_eq diff unsupported then some "unsupported" else none;
  apply_changes = λ diff log. (if str_eq diff broken then some "broken" else none, name ∷ log);
  rollback_changes = λ _ log. (none, drop 1 log);
}

abbrev router : Engine String String (List String)
router = new_engine (logging "vpp" "r9" "r8" ∷ logging "frr" "r7" "r6" ∷ [])

abbrev no_log : List String
no_log = []

router_applies :
    apply names 7 (some "r1") "ann" "first" router no_log
    ≡ (ok tt, (commit_running names 7 "r1" "ann" "first" router, "frr" ∷ "vpp" ∷ []))
unfolding new_engine apply check_config apply_config validate_plugins apply_changes apply_plugins
router_applies = refl

router_undoes :
    apply names 7 (some "r6") "ann" "first" router no_log
    ≡ (err (apply_failed (apply_error (logging "frr" "r7" "r6") "broken" [])), (router, no_log))
unfolding new_engine apply check_config apply_config validate_plugins apply_changes apply_plugins
    rollback
router_undoes = refl

apply_atomic_example :
    (router ≡ router)
    × (no_log ≡ no_log)
    × ((failed : ApplyError)
        → apply_failed (apply_error (logging "frr" "r7" "r6") "broken" []) ≡ apply_failed failed
        → failed.rollback_succeeded ≡ true)
unfolding new_engine
apply_atomic_example =
    apply_atomic names 7 "r6" "ann" "first" router no_log ((λ _. refl), ((λ _. refl), tt))
      router_undoes

apply_commits_example :
    let after = commit_running names 7 "r1" "ann" "first" router in
    ((true ≡ false) × (after ≡ router) × (("frr" ∷ "vpp" ∷ []) ≡ no_log))
    ⊎ ((true ≡ true)
        × Applies "r1" router.plugins no_log ("frr" ∷ "vpp" ∷ [])
        × (after.plugins ≡ router.plugins)
        × (after.version ≡ 1)
        × (running_config names after ≡ some "r1"))
unfolding new_engine
apply_commits_example = apply_commits names 7 "r1" "ann" "first" router no_log router_applies

apply_complete_example : apply names 7 (some "r1") "ann" "first" router no_log ≡ (
  ok tt,
  (
    record {
      running = some (record {
        version = 1;
        config = "r1";
        hash = [];
        author = "ann";
        message = "first";
        created_at = 7;
      });
      plugins = router.plugins;
      version = 1;
    },
    "frr" ∷ "vpp" ∷ [],
  ),
)
unfolding new_engine validate check_config validate_plugins
apply_complete_example =
    apply_complete names 7 "r1" "ann" "first" router no_log refl refl
      (next refl (next refl nothing))
