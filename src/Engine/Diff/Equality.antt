-- ===== src/Engine/Diff/Equality.antt =====
-- Comparing protocol sections in internal/engine/diff.go: maps, BGP, OSPF and static routes.
pub mod Maps
use text.Mathlib.Text.{◌==◌ as str_eq}
use arca_router.Prelude.{
  ℕ, Bool, true, false, not, ◌&&◌, ◌||◌, List, [], ◌∷◌, ◌++◌, Option, none, some, String, ltb, ◌==◌,
  if◌then◌else◌, length,
}
use arca_router.Engine.Diff.{Entry, Map, name_of, lookup}

-- The shape of `bgpEqual` and `ospfEqual`: as many entries, and each of the first map has an equal
-- one in the second.
module _ {V : Type 0} (equal : V → V → Bool) where
  unfoldable pub all_in : Map V → Map V → Bool
  all_in [] b = true
  all_in (entry ∷ a) b = elim (lookup entry.name b) [
    | none ↦ false
    | some found ↦ equal entry.value found.value && all_in a b
  ]

  unfoldable pub maps_equal : Map V → Map V → Bool
  maps_equal a b = length a == length b && all_in a b

-- Both nil, or both there and equal.
abbrev pub both : {V : Type 0} → (V → V → Bool) → Option V → Option V → Bool
both equal none none = true
both equal none (some b) = false
both equal (some a) none = false
both equal (some a) (some b) = equal a b

abbrev pub bool_eq : Bool → Bool → Bool
bool_eq true b = b
bool_eq false b = not b

-- Go integers of the protocol settings are counted from 0 here.
pub record BgpNeighbor : Type 0 where
  pub peer_as : ℕ
  pub description : String
  pub local_address : String
  pub bfd : Bool
  pub bfd_profile : String

pub record BgpGroup : Type 0 where
  pub kind : String
  pub neighbors : Map BgpNeighbor
  pub import_policy : String
  pub export_policy : String

abbrev pub neighbor_equal : BgpNeighbor → BgpNeighbor → Bool
neighbor_equal an bn =
    an.peer_as == bn.peer_as
    && str_eq an.description bn.description
    && str_eq an.local_address bn.local_address
    && bool_eq an.bfd bn.bfd
    && str_eq an.bfd_profile bn.bfd_profile

unfoldable pub group_equal : BgpGroup → BgpGroup → Bool
group_equal ag bg =
    str_eq ag.kind bg.kind
    && str_eq ag.import_policy bg.import_policy
    && str_eq ag.export_policy bg.export_policy
    && maps_equal neighbor_equal ag.neighbors bg.neighbors

-- A BGP configuration is its groups.
unfoldable pub bgp_equal : Option (Map BgpGroup) → Option (Map BgpGroup) → Bool
bgp_equal = both (maps_equal group_equal)

pub record OspfInterface : Type 0 where
  pub passive : Bool
  pub metric : ℕ
  pub priority : Option ℕ
  pub bfd : Bool
  pub bfd_profile : String

pub record OspfConfig : Type 0 where
  pub router_id : String
  pub areas : Map (Map OspfInterface)

abbrev pub ospf_interface_equal : OspfInterface → OspfInterface → Bool
ospf_interface_equal ai bi =
    bool_eq ai.passive bi.passive
    && ai.metric == bi.metric
    && bool_eq ai.bfd bi.bfd
    && str_eq ai.bfd_profile bi.bfd_profile
    && both (λ m n. m == n) ai.priority bi.priority

unfoldable pub ospf_equal : Option OspfConfig → Option OspfConfig → Bool
ospf_equal = both λ a b.
    str_eq a.router_id b.router_id && maps_equal (maps_equal ospf_interface_equal) a.areas b.areas

pub record StaticRoute : Type 0 where
  pub prefix : String
  pub next_hop : String
  pub distance : ℕ
  pub bfd : Bool
  pub bfd_profile : String
  pub bfd_source : String
  pub bfd_multihop : Bool

abbrev pub route_equal : StaticRoute → StaticRoute → Bool
route_equal a b =
    str_eq a.prefix b.prefix
    && str_eq a.next_hop b.next_hop
    && a.distance == b.distance
    && bool_eq a.bfd b.bfd
    && str_eq a.bfd_profile b.bfd_profile
    && str_eq a.bfd_source b.bfd_source
    && bool_eq a.bfd_multihop b.bfd_multihop

-- The length test comes first in the code, so lists of two lengths differ.
unfoldable pub static_routes_equal : List StaticRoute → List StaticRoute → Bool
static_routes_equal [] [] = true
static_routes_equal [] (y ∷ ys) = false
static_routes_equal (x ∷ xs) [] = false
static_routes_equal (x ∷ xs) (y ∷ ys) = route_equal x y && static_routes_equal xs ys
