-- ===== src/Engine/Diff/Compute/Self.antt =====
-- A configuration against itself, by `ComputeDiff` of internal/engine/diff.go.
use text.Mathlib.TextEquality.{eq_iff}
use arca_router.Prelude.{
  Bool, true, false, List, [], ◌∷◌, Option, none, some, String, ◌==◌, ◌≡◌, refl, arith,
}
use arca_router.Datastore.Table.{select, HasUniqueKeys}
use arca_router.Engine.Diff.{
  Entry, Map, name_of, lookup, Interfaces, InterfaceConfig, removed_names, changed_interfaces,
  added_interfaces,
}
use arca_router.Engine.Diff.Changes.{diff_interface-none}
use arca_router.Engine.Diff.Equality.{
  BgpGroup, BgpNeighbor, OspfConfig, OspfInterface, StaticRoute, bgp_equal, ospf_equal,
  static_routes_equal, both, maps_equal, group_equal, neighbor_equal, ospf_interface_equal,
  route_equal, bool_eq,
}
use arca_router.Engine.Diff.Equality.Maps.{maps_equal_self}
use arca_router.Engine.Diff.Compute.{
  ProtocolsConfig, RoutingConfig, RouterConfig, has_changes, compute_diff, routing_equal,
  get_static_routes, protocol_of, section_of,
}

bool_eq_self : (b : Bool) → bool_eq b b ≡ true
bool_eq_self true = refl
bool_eq_self false = refl

both_self :
    {V : Type 0} (equal : V → V → Bool) (v : Option V)
    → ((x : V) → v ≡ some x → equal x x ≡ true)
    → both equal v v ≡ true
both_self equal none self = refl
both_self equal (some x) self = self x refl

neighbor_equal_self : (n : BgpNeighbor) → neighbor_equal n n ≡ true
neighbor_equal_self n = ground (
  arith,
  bool_eq_self n.bfd,
  eq_iff n.description n.description,
  eq_iff n.local_address n.local_address,
  eq_iff n.bfd_profile n.bfd_profile,
)

ospf_interface_equal_self : (i : OspfInterface) → ospf_interface_equal i i ≡ true
ospf_interface_equal_self i = ground (
  arith,
  bool_eq_self i.passive,
  bool_eq_self i.bfd,
  eq_iff i.bfd_profile i.bfd_profile,
  both_self (λ m n. m == n) i.priority (λ x _. ground arith),
)

route_equal_self : (r : StaticRoute) → route_equal r r ≡ true
route_equal_self r = ground (
  arith,
  bool_eq_self r.bfd,
  bool_eq_self r.bfd_multihop,
  eq_iff r.prefix r.prefix,
  eq_iff r.next_hop r.next_hop,
  eq_iff r.bfd_profile r.bfd_profile,
  eq_iff r.bfd_source r.bfd_source,
)

pub static_routes_equal_self :
    (routes : List StaticRoute) → static_routes_equal routes routes ≡ true
unfolding static_routes_equal
static_routes_equal_self [] = refl
static_routes_equal_self (r ∷ routes) =
    ground (arith, route_equal_self r, static_routes_equal_self routes)

-- No name is removed, added or changed.
removed_names_self :
    (part whole : Interfaces)
    → ((name : String) (p : Entry (Option InterfaceConfig))
        → lookup name part ≡ some p
        → lookup name whole ≡ some p)
    → HasUniqueKeys name_of part
    → (removed_names part whole ≡ [])
      × (changed_interfaces part whole ≡ [])
      × (added_interfaces whole part ≡ [])
unfolding removed_names changed_interfaces added_interfaces select
removed_names_self [] whole sub u = (refl, refl, refl)
removed_names_self (x ∷ part) whole sub u =
    let rest =
      removed_names_self part whole
        (λ name p f. sub name p (ground (arith, f, u.0, eq_iff x.name name))) u.1 in
    let here = sub x.name x (ground (arith, eq_iff x.name x.name)) in
    let same = (diff_interface-none x.name x.value x.value).1 (refl, λ _. refl) in
    (ground (arith, rest.0, here), ground (arith, rest.1, here, same), ground (arith, rest.2, here))

-- The maps of the protocols have unique names.
abbrev pub HasUniqueGroups : Option (Map BgpGroup) → Type 0
HasUniqueGroups none = Unit {0}
HasUniqueGroups (some groups) =
    HasUniqueKeys name_of groups
    × ((name : String) (g : Entry BgpGroup)
        → lookup name groups ≡ some g
        → HasUniqueKeys name_of g.value.neighbors)

abbrev pub HasUniqueAreas : Option OspfConfig → Type 0
HasUniqueAreas none = Unit {0}
HasUniqueAreas (some ospf) =
    HasUniqueKeys name_of ospf.areas
    × ((name : String) (a : Entry (Map OspfInterface))
        → lookup name ospf.areas ≡ some a
        → HasUniqueKeys name_of a.value)

bgp_equal_self : (bgp : Option (Map BgpGroup)) → HasUniqueGroups bgp → bgp_equal bgp bgp ≡ true
unfolding bgp_equal group_equal
bgp_equal_self none u = refl
bgp_equal_self (some groups) u = maps_equal_self group_equal groups u.0 λ name g f. ground (
  arith,
  eq_iff g.value.kind g.value.kind,
  eq_iff g.value.import_policy g.value.import_policy,
  eq_iff g.value.export_policy g.value.export_policy,
  maps_equal_self neighbor_equal g.value.neighbors (u.1 name g f)
      (λ _ n _. neighbor_equal_self n.value),
)

ospf_equal_self : (ospf : Option OspfConfig) → HasUniqueAreas ospf → ospf_equal ospf ospf ≡ true
unfolding ospf_equal
ospf_equal_self none u = refl
ospf_equal_self (some ospf) u =
    let areas = maps_equal_self (maps_equal ospf_interface_equal) ospf.areas u.0 λ name a f.
      maps_equal_self ospf_interface_equal a.value (u.1 name a f)
        (λ _ i _. ospf_interface_equal_self i.value) in
    ground (arith, areas, eq_iff ospf.router_id ospf.router_id)

routing_equal_self : (routing : Option RoutingConfig) → routing_equal routing routing ≡ true
unfolding routing_equal
routing_equal_self none = refl
routing_equal_self (some r) = ground (arith, eq_iff r.router_id r.router_id)

abbrev pub HasUniqueProtocols : {Section : Type 0} → Option (ProtocolsConfig Section) → Type 0
HasUniqueProtocols none = Unit {0}
HasUniqueProtocols (some p) = HasUniqueGroups p.bgp × HasUniqueAreas p.ospf × HasUniqueAreas p.ospf3

protocols_self :
    {Section : Type 0} (config : RouterConfig Section)
    → HasUniqueProtocols config.protocols
    → (bgp_equal (protocol_of (λ p. p.bgp) config) (protocol_of (λ p. p.bgp) config) ≡ true)
      × (ospf_equal (protocol_of (λ p. p.ospf) config) (protocol_of (λ p. p.ospf) config) ≡ true)
      × (ospf_equal (protocol_of (λ p. p.ospf3) config) (protocol_of (λ p. p.ospf3) config) ≡ true)
protocols_self config u =
    let unique =
      (elim config.protocols
          as (λ x.
            HasUniqueProtocols x
            → HasUniqueGroups (elim x [ none ↦ none | some p ↦ p.bgp ])
              × HasUniqueAreas (elim x [ none ↦ none | some p ↦ p.ospf ])
              × HasUniqueAreas (elim x [ none ↦ none | some p ↦ p.ospf3 ])) [
                | none ↦ λ _. (tt, tt, tt)
                | some p ↦ λ v. v
              ])
        u in
    (
      bgp_equal_self (protocol_of (λ p. p.bgp) config) unique.0,
      ospf_equal_self (protocol_of (λ p. p.ospf) config) unique.1,
      ospf_equal_self (protocol_of (λ p. p.ospf3) config) unique.2,
    )

-- A configuration has no changes against itself, where `deep_equal` finds every section equal to
-- itself and sorting nothing gives nothing.
pub has_changes-compute_diff_self :
    {Section : Type 0} (nil : Section) (deep_equal : Section → Section → Bool)
    (sort_strings : List String → List String) (config : RouterConfig Section)
    → ((section : Section) → deep_equal section section ≡ true)
    → sort_strings [] ≡ []
    → HasUniqueKeys name_of config.interfaces
    → HasUniqueProtocols config.protocols
    → has_changes (compute_diff nil deep_equal sort_strings (some config) config) ≡ false
unfolding has_changes compute_diff
has_changes-compute_diff_self nil deep_equal sort_strings config self sorted u p =
    let names = removed_names_self config.interfaces config.interfaces (λ _ _ f. f) u in
    let parts = protocols_self config p in
    let at =
      λ (f : ProtocolsConfig _ → _). self (section_of nil deep_equal sort_strings f config) in
    rw
      (
        names.0,
        names.1,
        names.2,
        sorted,
        parts.0,
        parts.1,
        parts.2,
        routing_equal_self config.routing,
        static_routes_equal_self (get_static_routes config),
      )
      (ground (
        arith,
        at (λ c. c.bfd),
        at (λ c. c.evpn),
        at (λ c. c.mpls),
        at (λ c. c.vrrp),
        self config.routing_instances,
        self config.policy,
        self config.chassis,
        self config.class_of_service,
        self config.system,
        self config.security,
      ))
