-- ===== src/Engine/Diff/Compute.antt =====
-- `ComputeDiff` and `HasChanges` of internal/engine/diff.go over whole configurations. A section of
-- the difference is `some (old, new)` where the code sets its flag with the two values. `deep_equal`
-- is `reflect.DeepEqual` and `sort_strings` is `sort.Strings`.
pub mod Self
use text.Mathlib.Text.{◌==◌ as str_eq}
use arca_router.Prelude.{
  ℕ, Bool, true, false, not, ◌&&◌, ◌||◌, List, [], ◌∷◌, Option, none, some, String, ◌==◌,
  if◌then◌else◌,
}
use arca_router.Engine.Diff.{
  Map, Interfaces, InterfaceConfig, InterfaceChange, removed_names, changed_interfaces,
  added_interfaces, is_empty,
}
use arca_router.Engine.Diff.Equality.{
  BgpGroup, OspfConfig, StaticRoute, bgp_equal, ospf_equal, static_routes_equal, both,
}

pub record ProtocolsConfig (Section : Type 0) : Type 0 where
  pub bfd : Section
  pub bgp : Option (Map BgpGroup)
  pub evpn : Section
  pub ospf : Option OspfConfig
  pub ospf3 : Option OspfConfig
  pub mpls : Section
  pub vrrp : Section

pub record RoutingConfig : Type 0 where
  pub autonomous_system : ℕ
  pub router_id : String
  pub static_routes : List StaticRoute

pub record RouterConfig (Section : Type 0) : Type 0 where
  pub system : Section
  pub chassis : Section
  pub interfaces : Interfaces
  pub protocols : Option (ProtocolsConfig Section)
  pub routing : Option RoutingConfig
  pub routing_instances : Section
  pub policy : Section
  pub class_of_service : Section
  pub security : Section

abbrev pub Change : Type 0 → Type 0
Change A = Option (A × A)

pub record ConfigDiff (Section : Type 0) : Type 0 where
  pub old_config : RouterConfig Section
  pub new_config : RouterConfig Section
  pub interfaces_added : Interfaces
  pub interfaces_removed : List String
  pub interfaces_changed : Map InterfaceChange
  pub bfd : Change Section
  pub bgp : Change (Option (Map BgpGroup))
  pub evpn : Change Section
  pub ospf : Change (Option OspfConfig)
  pub ospf3 : Change (Option OspfConfig)
  pub mpls : Change Section
  pub vrrp : Change Section
  pub routing : Change (Option RoutingConfig)
  pub static_routes : Change (List StaticRoute)
  pub routing_instances : Change Section
  pub policy : Change Section
  pub chassis : Change Section
  pub class_of_service : Change Section
  pub system : Change Section
  pub security : Change Section

abbrev pub change : {A : Type 0} → (A → A → Bool) → A → A → Change A
change equal old new = if equal old new then none else some (old, new)

abbrev pub is_changed : {A : Type 0} → Change A → Bool
is_changed none = false
is_changed (some _) = true

unfoldable pub routing_equal : Option RoutingConfig → Option RoutingConfig → Bool
routing_equal =
    both λ a b. a.autonomous_system == b.autonomous_system && str_eq a.router_id b.router_id

abbrev pub get_static_routes : {Section : Type 0} → RouterConfig Section → List StaticRoute
get_static_routes config = elim config.routing [ none ↦ [] | some routing ↦ routing.static_routes ]

unfoldable pub has_changes : {Section : Type 0} → ConfigDiff Section → Bool
has_changes d =
    not (is_empty d.interfaces_added)
    || not (is_empty d.interfaces_removed)
    || not (is_empty d.interfaces_changed)
    || is_changed d.bfd
    || is_changed d.bgp
    || is_changed d.evpn
    || is_changed d.ospf
    || is_changed d.ospf3
    || is_changed d.mpls
    || is_changed d.vrrp
    || is_changed d.static_routes
    || is_changed d.routing
    || is_changed d.routing_instances
    || is_changed d.policy
    || is_changed d.chassis
    || is_changed d.class_of_service
    || is_changed d.system
    || is_changed d.security

-- `getBGP` and its like: nil where there are no protocols.
abbrev pub protocol_of :
    {Section A : Type 0} → (ProtocolsConfig Section → Option A) → RouterConfig Section → Option A
protocol_of part config = elim config.protocols [ none ↦ none | some protocols ↦ part protocols ]

module _ {Section : Type 0} (nil : Section) (deep_equal : Section → Section → Bool)
    (sort_strings : List String → List String) where
  -- `getBFD` and its like.
  abbrev pub section_of : (ProtocolsConfig Section → Section) → RouterConfig Section → Section
  section_of part config = elim config.protocols [ none ↦ nil | some protocols ↦ part protocols ]

  -- `model.NewRouterConfig`
  abbrev pub new_router_config : RouterConfig Section
  new_router_config = record {
    system = nil;
    chassis = nil;
    interfaces = [];
    protocols = none;
    routing = none;
    routing_instances = nil;
    policy = nil;
    class_of_service = nil;
    security = nil;
  }

  abbrev pub diff_of : RouterConfig Section → RouterConfig Section → ConfigDiff Section
  diff_of old new =
      let part = λ (f : ProtocolsConfig Section → Section).
        change deep_equal (section_of f old) (section_of f new) in
      record {
        old_config = old;
        new_config = new;
        interfaces_added = added_interfaces old.interfaces new.interfaces;
        interfaces_removed = sort_strings (removed_names old.interfaces new.interfaces);
        interfaces_changed = changed_interfaces old.interfaces new.interfaces;
        bfd = part (λ p. p.bfd);
        bgp = change bgp_equal (protocol_of (λ p. p.bgp) old) (protocol_of (λ p. p.bgp) new);
        evpn = part (λ p. p.evpn);
        ospf = change ospf_equal (protocol_of (λ p. p.ospf) old) (protocol_of (λ p. p.ospf) new);
        ospf3 = change ospf_equal (protocol_of (λ p. p.ospf3) old) (protocol_of (λ p. p.ospf3) new);
        mpls = part (λ p. p.mpls);
        vrrp = part (λ p. p.vrrp);
        routing = change routing_equal old.routing new.routing;
        static_routes = change static_routes_equal (get_static_routes old) (get_static_routes new);
        routing_instances = change deep_equal old.routing_instances new.routing_instances;
        policy = change deep_equal old.policy new.policy;
        chassis = change deep_equal old.chassis new.chassis;
        class_of_service = change deep_equal old.class_of_service new.class_of_service;
        system = change deep_equal old.system new.system;
        security = change deep_equal old.security new.security;
      }

  unfoldable pub compute_diff :
      Option (RouterConfig Section) → RouterConfig Section → ConfigDiff Section
  compute_diff none new = diff_of new_router_config new
  compute_diff (some old) new = diff_of old new
