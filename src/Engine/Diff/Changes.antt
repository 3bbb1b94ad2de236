-- ===== src/Engine/Diff/Changes.antt =====
-- What `diffInterface` of internal/engine/diff.go reports of one interface in two configurations.
use text.Mathlib.Text.{◌==◌ as str_eq}
use text.Mathlib.TextEquality.{eq_iff}
use arca_router.Prelude.{
  Bool, true, false, Option, none, some, String, ◌≡◌, ◌≢◌, ◌⊎◌, inl, inr, refl, sym, subst, ◌∙◌,
  arith, ◌↔◌, Bool-cases, Option-cases,
}
use arca_router.Engine.Diff.{
  InterfaceConfig, InterfaceChange, UnitAddress, contains_address, missing_from, diff_interface,
  collect_addresses, interface_description,
}
use arca_router.Engine.Diff.Addresses.{In, HasAddress, In-collect_addresses, contains_address-In}
use arca_router.Engine.Diff.Missing.{
  contains_address-missing_from, is_empty-contains_address, nothing_missing,
}

-- Both have the same description and the same addresses.
abbrev pub IsSame : Option InterfaceConfig → Option InterfaceConfig → Type 0
IsSame old new =
    (interface_description old ≡ interface_description new)
    × ((t : UnitAddress) → HasAddress old t ↔ HasAddress new t)

-- The change lists what the new interface alone has, what the old one alone has, and both
-- descriptions where they differ.
pub record Describes (old new : Option InterfaceConfig) (change : InterfaceChange) : Type 0 where
  pub added :
      (t : UnitAddress) → In t change.addresses_added ↔ (HasAddress new t × ¬ (HasAddress old t))
  pub removed :
      (t : UnitAddress) → In t change.addresses_removed ↔ (HasAddress old t × ¬ (HasAddress new t))
  pub described :
      ((change.description_changed ≡ false)
        × (interface_description old ≡ interface_description new))
      ⊎ ((change.description_changed ≡ true)
          × (interface_description old ≢ interface_description new)
          × (change.old_description ≡ interface_description old)
          × (change.new_description ≡ interface_description new))

-- What is reported of two interfaces: nothing where they are the same, and else their difference.
abbrev pub IsDifference :
    String → Option InterfaceConfig → Option InterfaceConfig → Option InterfaceChange → Type 0
IsDifference name old new none = IsSame old new
IsDifference name old new (some change) =
    (¬ (IsSame old new)) × (change.name ≡ name) × Describes old new change

contains_address-HasAddress :
    (interface : Option InterfaceConfig) (t : UnitAddress)
    → (contains_address (collect_addresses interface) t ≡ true) ↔ HasAddress interface t
contains_address-HasAddress interface t =
    let test = contains_address-In (collect_addresses interface) t in
    let all = In-collect_addresses interface t in (λ h. all.0 (test.0 h), λ h. test.1 (all.1 h))

same_test : {P Q : Type 0} (a b : Bool) → (a ≡ true) ↔ P → (b ≡ true) ↔ Q → P ↔ Q → a ≡ b
same_test true true p q h = refl
same_test false false p q h = refl
same_test true false p q h = sym (q.1 (h.0 (p.0 refl)))
same_test false true p q h = p.1 (h.1 (q.0 refl))

missing_from-In :
    (known addresses : Option InterfaceConfig) (t : UnitAddress)
    → In t (missing_from (collect_addresses known) (collect_addresses addresses))
      ↔ (HasAddress addresses t × ¬ (HasAddress known t))
missing_from-In known addresses t =
    let olds = collect_addresses known in
    let news = collect_addresses addresses in
    let test = contains_address-In (missing_from olds news) t in
    let law = contains_address-missing_from olds news t in
    let there = contains_address-HasAddress addresses t in
    let here = contains_address-HasAddress known t in
    (
      λ i.
          let listed = test.1 i in
          (
            there.0 (ground (arith, listed, law)),
            λ h. absurd (ground (arith, listed, law, here.1 h)),
          ),
      λ (h, fresh). test.0 (elim (Bool-cases (contains_address olds t)) [
        | inl k ↦ absurd (fresh (here.0 k))
        | inr k ↦ ground (arith, law, k, there.1 h)
      ]),
    )

module _ (name : String) (old new : Option InterfaceConfig) where
  -- No change is reported exactly where both have the same description and the same addresses.
  pub diff_interface-none : (diff_interface name old new ≡ none) ↔ (
      (interface_description old ≡ interface_description new)
      × ((target : UnitAddress)
          → contains_address (collect_addresses old) target
            ≡ contains_address (collect_addresses new) target))
  unfolding diff_interface
  diff_interface-none =
      let olds = collect_addresses old in
      let news = collect_addresses new in
      let described = eq_iff (interface_description old) (interface_description new) in
      (
        λ h. (
          ground (arith, h, described),
          λ target. ground (
            arith,
            h,
            contains_address-missing_from olds news target,
            contains_address-missing_from news olds target,
            is_empty-contains_address (missing_from olds news) target,
            is_empty-contains_address (missing_from news olds) target,
          ),
        ),
        λ same.
            let added = nothing_missing olds news (λ t h. same.1 t ∙ h) in
            let removed = nothing_missing news olds (λ t h. sym (same.1 t) ∙ h) in
            ground (arith, added, removed, described, same.0),
      )

  none-IsSame : diff_interface name old new ≡ none → IsSame old new
  none-IsSame h =
      let same = diff_interface-none.0 h in
      (
        same.0,
        λ t.
            let here = contains_address-HasAddress old t in
            let there = contains_address-HasAddress new t in
            (λ i. there.0 (sym (same.1 t) ∙ here.1 i), λ i. here.0 (same.1 t ∙ there.1 i)),
      )

  IsSame-none : IsSame old new → diff_interface name old new ≡ none
  IsSame-none same = diff_interface-none.1 (
    same.0,
    λ t.
        same_test _ _ (contains_address-HasAddress old t) (contains_address-HasAddress new t)
          (same.1 t),
  )

  some-Describes :
      {change : InterfaceChange}
      → diff_interface name old new ≡ some change
      → (change.name ≡ name) × Describes old new change
  unfolding diff_interface
  some-Describes {change} h =
      let added : change.addresses_added
          ≡ missing_from (collect_addresses old) (collect_addresses new) =
        ground (arith, h) in
      let removed : change.addresses_removed
          ≡ missing_from (collect_addresses new) (collect_addresses old) =
        ground (arith, h) in
      let text = eq_iff (interface_description old) (interface_description new) in
      (
        ground (arith, h),
        record {
          added = λ t. rw added (missing_from-In old new t);
          removed = λ t. rw removed (missing_from-In new old t);
          described =
              elim (Bool-cases (str_eq (interface_description old) (interface_description new))) [
                | inl e ↦ inl (ground (arith, h, e), text.0 e)
                | inr e ↦ inr (
                  ground (arith, h, e),
                  λ same. absurd (ground (arith, e, text.1 same)),
                  ground (arith, h, e),
                  ground (arith, h, e),
                )
              ];
        },
      )

  -- Nothing is reported of two interfaces exactly if they have the same description and the same
  -- addresses, each with its unit and family. A reported change has the name, lists exactly the
  -- addresses that the new one alone has as added and those that the old one alone has as removed,
  -- and says whether the descriptions differ, then with both.
  pub diff_interface-IsDifference : IsDifference name old new (diff_interface name old new)
  diff_interface-IsDifference = elim (Option-cases (diff_interface name old new)) [
    | inl e ↦ subst (IsDifference name old new) (sym e) (none-IsSame e)
    | inr (change, e) ↦ subst (IsDifference name old new) (sym e) (
      λ same. let lost : none ≡ some change = sym (IsSame-none same) ∙ e in absurd cc,
      (some-Describes e).0,
      (some-Describes e).1,
    )
  ]
