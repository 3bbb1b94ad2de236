-- ===== src/Engine/Diff.antt =====
-- internal/engine/diff.go over the types of internal/model/config.go: what changes between two
-- configurations. A Go map is a list of entries with unique names; `Section` stands for the values
-- that the code compares by `reflect.DeepEqual` alone, nil pointers among them.
pub mod Addresses
pub mod Changes
pub mod Interfaces
pub mod Missing
pub mod Equality
pub mod Compute
mod Tests
use text.Mathlib.Text.{◌==◌ as str_eq}
use arca_router.Prelude.{
  ℕ, Bool, true, false, not, ◌&&◌, ◌||◌, List, [], ◌∷◌, ◌++◌, Option, none, some, String, ltb, ◌==◌,
  if◌then◌else◌, length,
}
use arca_router.Datastore.Table.{select}

pub record Entry (V : Type 0) : Type 0 where
  pub name : String
  pub value : V

abbrev pub name_of : {V : Type 0} → Entry V → String
name_of entry = entry.name

abbrev pub Map : Type 0 → Type 0
Map V = List (Entry V)

-- A lookup with its second result: `none` where the name is missing.
abbrev pub lookup : {V : Type 0} → String → Map V → Option (Entry V)
lookup name entries = select name_of name entries

-- Addresses by family; a nil family, unit or interface is `none`.
pub record UnitEntry : Type 0 where
  pub number : ℕ
  pub families : Option (Map (Option (List String)))

pub record InterfaceConfig : Type 0 where
  pub description : String
  pub units : List UnitEntry

pub record UnitAddress : Type 0 where
  pub unit_num : ℕ
  pub family : String
  pub address : String

pub record InterfaceChange : Type 0 where
  pub name : String
  pub description_changed : Bool
  pub old_description : String
  pub new_description : String
  pub addresses_added : List UnitAddress
  pub addresses_removed : List UnitAddress

unfoldable pub addresses_of : ℕ → String → List String → List UnitAddress
addresses_of number family [] = []
addresses_of number family (address ∷ addresses) =
    record { unit_num = number; family = family; address = address }
    ∷ addresses_of number family addresses

unfoldable pub family_addresses : ℕ → Map (Option (List String)) → List UnitAddress
family_addresses number [] = []
family_addresses number (entry ∷ entries) =
    let rest = family_addresses number entries in
    elim entry.value [
      | none ↦ rest
      | some addresses ↦ addresses_of number entry.name addresses ++ rest
    ]

unfoldable pub unit_addresses : List UnitEntry → List UnitAddress
unit_addresses [] = []
unit_addresses (unit ∷ units) =
    let rest = unit_addresses units in
    elim unit.families [
      | none ↦ rest
      | some families ↦ family_addresses unit.number families ++ rest
    ]

unfoldable pub collect_addresses : Option InterfaceConfig → List UnitAddress
collect_addresses none = []
collect_addresses (some interface) = unit_addresses interface.units

abbrev pub interface_description : Option InterfaceConfig → String
interface_description none = ""
interface_description (some interface) = interface.description

abbrev pub is_address : UnitAddress → UnitAddress → Bool
is_address a target =
    a.unit_num == target.unit_num
    && str_eq a.family target.family
    && str_eq a.address target.address

unfoldable pub contains_address : List UnitAddress → UnitAddress → Bool
contains_address [] target = false
contains_address (a ∷ addresses) target = is_address a target || contains_address addresses target

-- Both loops of `diffInterface`: the addresses that the other interface has not.
unfoldable pub missing_from : List UnitAddress → List UnitAddress → List UnitAddress
missing_from known [] = []
missing_from known (a ∷ addresses) =
    let rest = missing_from known addresses in if contains_address known a then rest else a ∷ rest

abbrev pub is_empty : {A : Type 0} → List A → Bool
is_empty [] = true
is_empty (_ ∷ _) = false

unfoldable pub diff_interface :
    String → Option InterfaceConfig → Option InterfaceConfig → Option InterfaceChange
diff_interface name old new =
    let old_description = interface_description old in
    let new_description = interface_description new in
    let added = missing_from (collect_addresses old) (collect_addresses new) in
    let removed = missing_from (collect_addresses new) (collect_addresses old) in
    let changed = not (str_eq old_description new_description) in
    if changed || not (is_empty added) || not (is_empty removed)
    then some (record {
      name = name;
      description_changed = changed;
      old_description = if changed then old_description else "";
      new_description = if changed then new_description else "";
      addresses_added = added;
      addresses_removed = removed;
    })
    else none

abbrev pub Interfaces : Type 0
Interfaces = Map (Option InterfaceConfig)

-- The first loop of `computeInterfaceDiff`, which leaves the removed names to be sorted.
unfoldable pub removed_names : Interfaces → Interfaces → List String
removed_names [] new = []
removed_names (old ∷ olds) new =
    let rest = removed_names olds new in
    elim (lookup old.name new) [ none ↦ old.name ∷ rest | some _ ↦ rest ]

unfoldable pub changed_interfaces : Interfaces → Interfaces → Map InterfaceChange
changed_interfaces [] new = []
changed_interfaces (old ∷ olds) new =
    let rest = changed_interfaces olds new in
    elim (lookup old.name new) [
      | none ↦ rest
      | some entry ↦ elim (diff_interface old.name old.value entry.value) [
        | none ↦ rest
        | some change ↦ record { name = old.name; value = change } ∷ rest
      ]
    ]

-- The second loop.
unfoldable pub added_interfaces : Interfaces → Interfaces → Interfaces
added_interfaces old [] = []
added_interfaces old (new ∷ news) =
    let rest = added_interfaces old news in
    elim (lookup new.name old) [ none ↦ new ∷ rest | some _ ↦ rest ]
