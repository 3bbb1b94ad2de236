-- ===== src/Engine/Diff/Interfaces.antt =====
-- What internal/engine/diff.go reports of the interfaces.
use text.Mathlib.Text.{◌==◌ as str_eq}
use text.Mathlib.TextEquality.{eq_iff}
use arca_router.Prelude.{
  Bool, true, false, not, ◌&&◌, ◌||◌, List, [], ◌∷◌, Option, none, some, String, ◌≡◌, refl, sym,
  subst, arith, if◌then◌else◌,
}
use arca_router.Datastore.Table.{select, HasUniqueKeys}
use arca_router.Engine.Diff.Changes.{IsSame, Describes, IsDifference, diff_interface-IsDifference}
use arca_router.Engine.Diff.{
  Entry, name_of, lookup, InterfaceConfig, InterfaceChange, diff_interface, Interfaces,
  removed_names, changed_interfaces, added_interfaces,
}

unfoldable pub contains_name : List String → String → Bool
contains_name [] name = false
contains_name (n ∷ names) name = str_eq n name || contains_name names name

abbrev pub is_present : {V : Type 0} → Option (Entry V) → Bool
is_present none = false
is_present (some _) = true

removed_names-none :
    (old new : Interfaces) (name : String)
    → select name_of name old ≡ none
    → contains_name (removed_names old new) name ≡ false
unfolding select removed_names contains_name
removed_names-none [] new name h = refl
removed_names-none (o ∷ old) new name h = ground (arith, h, removed_names-none old new name)

contains_name-removed_names :
    (old new : Interfaces) (name : String)
    → HasUniqueKeys name_of old
    → contains_name (removed_names old new) name
      ≡ (is_present (lookup name old) && not (is_present (lookup name new)))
unfolding select removed_names contains_name
contains_name-removed_names [] new name u = refl
contains_name-removed_names (o ∷ old) new name u = ground (
  arith,
  contains_name-removed_names old new name u.1,
  removed_names-none old new name,
  u.0,
  eq_iff o.name name,
)

lookup-added_interfaces :
    (old new : Interfaces) (name : String)
    → lookup name (added_interfaces old new)
      ≡ (if is_present (lookup name old) then none else lookup name new)
unfolding select added_interfaces
lookup-added_interfaces old [] name = ground arith
lookup-added_interfaces old (n ∷ new) name =
    ground (arith, lookup-added_interfaces old new name, eq_iff n.name name)

abbrev change_of : String → Interfaces → Interfaces → Option (Entry InterfaceChange)
change_of name old new = elim (lookup name old) [
  | none ↦ none
  | some o ↦ elim (lookup name new) [
    | none ↦ none
    | some n ↦ elim (diff_interface name o.value n.value) [
      | none ↦ none
      | some change ↦ some (record { name = name; value = change })
    ]
  ]
]

changed_interfaces-none :
    (old new : Interfaces) (name : String)
    → select name_of name old ≡ none
    → select name_of name (changed_interfaces old new) ≡ none
unfolding select changed_interfaces
changed_interfaces-none [] new name h = refl
changed_interfaces-none (o ∷ old) new name h =
    ground (arith, h, changed_interfaces-none old new name)

lookup-changed_interfaces :
    (old new : Interfaces) (name : String)
    → HasUniqueKeys name_of old
    → lookup name (changed_interfaces old new) ≡ change_of name old new
unfolding select changed_interfaces
lookup-changed_interfaces [] new name u = refl
lookup-changed_interfaces (o ∷ old) new name u = ground (
  arith,
  lookup-changed_interfaces old new name u.1,
  changed_interfaces-none old new name,
  u.0,
  eq_iff o.name name,
)

-- The entry that is reported of a name, by what the two configurations have under it.
abbrev pub IsReported :
    String
    → Option (Entry (Option InterfaceConfig))
    → Option (Entry (Option InterfaceConfig))
    → Option (Entry InterfaceChange)
    → Type 0
IsReported name (some o) (some n) none = IsSame o.value n.value
IsReported name (some o) (some n) (some change) =
    (¬ (IsSame o.value n.value))
    × (change.value.name ≡ name)
    × Describes o.value n.value change.value
IsReported name _ _ none = Unit {0}
IsReported name _ _ (some change) = ⊥

difference-IsReported :
    (name : String) (o n : Entry (Option InterfaceConfig)) (r : Option InterfaceChange)
    → IsDifference name o.value n.value r
    → IsReported name
        (some o)
        (some n)
        (elim r [ none ↦ none | some change ↦ some (record { name = name; value = change }) ])
difference-IsReported name o n none h = h
difference-IsReported name o n (some change) h = h

entries-IsReported :
    (name : String) (o n : Option (Entry (Option InterfaceConfig)))
    → IsReported name o n (elim o [
      | none ↦ none
      | some o' ↦ elim n [
        | none ↦ none
        | some n' ↦ elim (diff_interface name o'.value n'.value) [
          | none ↦ none
          | some change ↦ some (record { name = name; value = change })
        ]
      ]
    ])
entries-IsReported name none n = tt
entries-IsReported name (some o) none = tt
entries-IsReported name (some o) (some n) =
    difference-IsReported name o n _ (diff_interface-IsDifference name o.value n.value)

change_of-IsReported :
    (name : String) (old new : Interfaces)
    → IsReported name (lookup name old) (lookup name new) (change_of name old new)
change_of-IsReported name old new = entries-IsReported name (lookup name old) (lookup name new)

-- By name, with names that are unique in the old configuration: an interface is removed exactly if the
-- old configuration alone has it, and added with its new value exactly if the new one alone has it.
-- Nothing else is reported of a name that one of them lacks. Where both have it, it is reported as
-- changed exactly if the description or the addresses differ, with exactly the addresses that the
-- new one alone and the old one alone has and whether the description differs.
pub interfaces_diffed :
    (old new : Interfaces) (name : String)
    → HasUniqueKeys name_of old
    → (contains_name (removed_names old new) name
        ≡ (is_present (lookup name old) && not (is_present (lookup name new))))
      × (lookup name (added_interfaces old new)
          ≡ (if is_present (lookup name old) then none else lookup name new))
      × IsReported name
          (lookup name old)
          (lookup name new)
          (lookup name (changed_interfaces old new))
interfaces_diffed old new name u = (
  contains_name-removed_names old new name u,
  lookup-added_interfaces old new name,
  subst (IsReported name (lookup name old) (lookup name new))
      (sym (lookup-changed_interfaces old new name u)) (change_of-IsReported name old new),
)
