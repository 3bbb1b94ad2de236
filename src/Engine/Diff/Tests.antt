-- ===== src/Engine/Diff/Tests.antt =====
-- Two configurations of a router with one or two interfaces, and what their comparison gives.
use text.Mathlib.Text.{◌==◌ as str_eq}
use text.Mathlib.TextEquality.{eq_iff}
use arca_router.Prelude.{ℕ, true, false, [], ◌∷◌, Option, none, some, String, ok, ◌≡◌, refl, arith}
use arca_router.Datastore.Table.{select}
use arca_router.Engine.{
  Engine, apply, apply_config, check_config, validate_plugins, apply_changes, apply_plugins,
  commit_running, new_engine,
}
use arca_router.Engine.Diff.{
  InterfaceConfig, InterfaceChange, UnitAddress, Interfaces, lookup, contains_address,
  collect_addresses, diff_interface, removed_names, added_interfaces, changed_interfaces,
  unit_addresses, family_addresses, addresses_of, missing_from,
}
use arca_router.Engine.Diff.Interfaces.{IsReported, interfaces_diffed, contains_name}
use arca_router.Engine.Diff.Changes.{IsDifference, diff_interface-IsDifference}
use arca_router.Engine.Diff.Compute.{RouterConfig, ConfigDiff, compute_diff, has_changes}
use arca_router.Engine.Idempotent.{router_model, apply_idempotent}

abbrev port : String → String → Option InterfaceConfig
port description address = some (record {
  description = description;
  units =
      record {
        number = 0;
        families = some (record { name = "inet"; value = some (address ∷ []) } ∷ []);
      }
      ∷ [];
})

abbrev uplink : Option InterfaceConfig
uplink = port "uplink" "192.0.2.1/24"

abbrev moved_uplink : Option InterfaceConfig
moved_uplink = port "uplink" "192.0.2.9/24"

abbrev address : String → UnitAddress
address text = record { unit_num = 0; family = "inet"; address = text }

abbrev uplink_change : InterfaceChange
uplink_change = record {
  name = "ge-0/0/0";
  description_changed = false;
  old_description = "";
  new_description = "";
  addresses_added = address "192.0.2.9/24" ∷ [];
  addresses_removed = address "192.0.2.1/24" ∷ [];
}

diff_interface-IsDifference_example :
    IsDifference "ge-0/0/0" uplink moved_uplink (some uplink_change)
unfolding diff_interface collect_addresses unit_addresses family_addresses addresses_of missing_from
    contains_address
diff_interface-IsDifference_example = diff_interface-IsDifference "ge-0/0/0" uplink moved_uplink

abbrev one_port : Interfaces
one_port = record { name = "ge-0/0/0"; value = uplink } ∷ []

abbrev two_ports : Interfaces
two_ports =
    record { name = "ge-0/0/1"; value = uplink }
    ∷ record { name = "ge-0/0/0"; value = moved_uplink }
    ∷ []

interfaces_diffed_example :
    (contains_name (removed_names one_port two_ports) "ge-0/0/0" ≡ false)
    × (lookup "ge-0/0/0" (added_interfaces one_port two_ports) ≡ none)
    × IsReported "ge-0/0/0"
        (lookup "ge-0/0/0" one_port)
        (lookup "ge-0/0/0" two_ports)
        (some (record { name = "ge-0/0/0"; value = uplink_change }))
unfolding select diff_interface collect_addresses unit_addresses family_addresses addresses_of
    missing_from contains_address changed_interfaces
interfaces_diffed_example = interfaces_diffed one_port two_ports "ge-0/0/0" (refl, tt)

-- Sections are texts here.
abbrev router : RouterConfig String
router = record {
  system = "r1";
  chassis = "";
  interfaces = one_port;
  protocols = none;
  routing = none;
  routing_instances = "";
  policy = "";
  class_of_service = "";
  security = "";
}

str_eq_self : (a : String) → str_eq a a ≡ true
str_eq_self a = ground (arith, eq_iff a a)

abbrev engine : Engine (RouterConfig String) (ConfigDiff String) ℕ
engine = record { running = none; plugins = []; version = 0 }

abbrev running : Engine (RouterConfig String) (ConfigDiff String) ℕ
running =
    commit_running (router_model "" str_eq (λ n. n) (λ _. none) (λ _. [])) 1 router "ann" "" engine

apply_idempotent_example :
    apply (router_model "" str_eq (λ n. n) (λ _. none) (λ _. [])) 2 (some router) "bob" "" running 7
    ≡ (ok tt, (running, 7))
unfolding select apply apply_config check_config validate_plugins apply_changes apply_plugins
    new_engine compute_diff has_changes added_interfaces
apply_idempotent_example =
    apply_idempotent "" str_eq (λ n. n) (λ _. none) (λ _. []) 1 2 router "ann" "" "bob" "" engine
      running 7 7 str_eq_self refl (refl, tt) tt refl refl
