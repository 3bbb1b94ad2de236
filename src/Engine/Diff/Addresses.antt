-- ===== src/Engine/Diff/Addresses.antt =====
-- Which addresses an interface of internal/model/config.go has, apart from how
-- internal/engine/diff.go collects and compares them.
use text.Mathlib.TextEquality.{eq_iff}
use arca_router.Prelude.{
  ℕ, true, List, [], ◌∷◌, ◌++◌, Option, none, some, String, ◌≡◌, ◌⊎◌, inl, inr, refl, ap, subst,
  arith, ==_iff, ◌↔◌, Bool-cases,
}
use arca_router.Engine.Diff.{
  Map, UnitEntry, InterfaceConfig, UnitAddress, addresses_of, family_addresses, unit_addresses,
  collect_addresses, is_address, contains_address,
}

abbrev pub In : {A : Type 0} → A → List A → Type 0
In x [] = ⊥
In x (y ∷ ys) = (y ≡ x) ⊎ In x ys

-- The families of a unit list the address under the family of `t`.
abbrev pub InFamilies : Map (Option (List String)) → UnitAddress → Type 0
InFamilies [] t = ⊥
InFamilies (entry ∷ entries) t =
    ((entry.name ≡ t.family)
      × ((addresses : List String) × (entry.value ≡ some addresses) × In t.address addresses))
    ⊎ InFamilies entries t

abbrev pub InUnits : List UnitEntry → UnitAddress → Type 0
InUnits [] t = ⊥
InUnits (unit ∷ units) t =
    ((unit.number ≡ t.unit_num)
      × ((families : Map (Option (List String))) × (unit.families ≡ some families)
          × InFamilies families t))
    ⊎ InUnits units t

-- One of the interface's units has the address of `t`, with its number and its family.
abbrev pub HasAddress : Option InterfaceConfig → UnitAddress → Type 0
HasAddress none t = ⊥
HasAddress (some interface) t = InUnits interface.units t

In-append : {A : Type 0} (x : A) (xs ys : List A) → In x (xs ++ ys) ↔ (In x xs ⊎ In x ys)
In-append x [] ys = (λ h. inr h, λ h. elim h [ inl lost ↦ absurd lost | inr i ↦ i ])
In-append x (y ∷ xs) ys =
    let rest = In-append x xs ys in
    (
      λ h. elim h [
        | inl e ↦ inl (inl e)
        | inr i ↦ elim (rest.0 i) [ inl a ↦ inl (inr a) | inr b ↦ inr b ]
      ],
      λ h. elim h [
        | inl a ↦ elim a [ inl e ↦ inl e | inr i ↦ inr (rest.1 (inl i)) ]
        | inr b ↦ inr (rest.1 (inr b))
      ],
    )

same_address :
    {a t : UnitAddress}
    → a.unit_num ≡ t.unit_num
    → a.family ≡ t.family
    → a.address ≡ t.address
    → a ≡ t
same_address n f e = ground (arith, n, f, e)

In-addresses_of :
    (number : ℕ) (family : String) (addresses : List String) (t : UnitAddress)
    → In t (addresses_of number family addresses)
      ↔ ((number ≡ t.unit_num) × (family ≡ t.family) × In t.address addresses)
unfolding addresses_of
In-addresses_of number family [] t = (λ lost. absurd lost, λ h. absurd h.2)
In-addresses_of number family (a ∷ addresses) t =
    let rest = In-addresses_of number family addresses t in
    (
      λ h. elim h [
        | inl e ↦ (
          ap (λ (x : UnitAddress). x.unit_num) e,
          ap (λ (x : UnitAddress). x.family) e,
          inl (ap (λ (x : UnitAddress). x.address) e),
        )
        | inr i ↦ let (n, f, m) = rest.0 i in (n, f, inr m)
      ],
      λ (n, f, m). elim m [ inl e ↦ inl (same_address n f e) | inr i ↦ inr (rest.1 (n, f, i)) ],
    )

-- One round of the loop over the families, where `Rest` describes the other rounds.
family_round :
    (number : ℕ) (name : String) (value : Option (List String)) (rest : List UnitAddress)
    (Rest : Type 0) (t : UnitAddress)
    → In t rest ↔ ((number ≡ t.unit_num) × Rest)
    → In t
        (elim value [ none ↦ rest | some addresses ↦ addresses_of number name addresses ++ rest ])
      ↔ ((number ≡ t.unit_num)
          × (((name ≡ t.family)
                × ((addresses : List String) × (value ≡ some addresses) × In t.address addresses))
              ⊎ Rest))
family_round number name none rest Rest t h = (
  λ i. let (n, r) = h.0 i in (n, inr r),
  λ (n, o). elim o [ inl (f, (addresses, e, m)) ↦ absurd cc | inr r ↦ h.1 (n, r) ],
)
family_round number name (some addresses) rest Rest t h =
    let appended = In-append t (addresses_of number name addresses) rest in
    let listed = In-addresses_of number name addresses t in
    (
      λ i. elim (appended.0 i) [
        | inl a ↦ let (n, f, m) = listed.0 a in (n, inl (f, (addresses, refl, m)))
        | inr b ↦ let (n, r) = h.0 b in (n, inr r)
      ],
      λ (n, o). appended.1 (elim o [
        | inl (f, (others, e, m)) ↦
            let same : others ≡ addresses = cc in inl (listed.1 (n, f, subst (In t.address) same m))
        | inr r ↦ inr (h.1 (n, r))
      ]),
    )

In-family_addresses :
    (number : ℕ) (families : Map (Option (List String))) (t : UnitAddress)
    → In t (family_addresses number families) ↔ ((number ≡ t.unit_num) × InFamilies families t)
unfolding family_addresses
In-family_addresses number [] t = (λ lost. absurd lost, λ h. absurd h.1)
In-family_addresses number (entry ∷ entries) t =
    family_round number entry.name entry.value (family_addresses number entries)
      (InFamilies entries t) t (In-family_addresses number entries t)

unit_round :
    (number : ℕ) (value : Option (Map (Option (List String)))) (rest : List UnitAddress)
    (Rest : Type 0) (t : UnitAddress)
    → In t rest ↔ Rest
    → In t (elim value [ none ↦ rest | some families ↦ family_addresses number families ++ rest ])
      ↔ (((number ≡ t.unit_num)
            × ((families : Map (Option (List String))) × (value ≡ some families)
                × InFamilies families t))
          ⊎ Rest)
unit_round number none rest Rest t h =
    (λ i. inr (h.0 i), λ o. elim o [ inl (n, (families, e, m)) ↦ absurd cc | inr r ↦ h.1 r ])
unit_round number (some families) rest Rest t h =
    let appended = In-append t (family_addresses number families) rest in
    let listed = In-family_addresses number families t in
    (
      λ i. elim (appended.0 i) [
        | inl a ↦ let (n, m) = listed.0 a in inl (n, (families, refl, m))
        | inr b ↦ inr (h.0 b)
      ],
      λ o. appended.1 (elim o [
        | inl (n, (others, e, m)) ↦
            let same : others ≡ families = cc in
            inl (listed.1 (n, subst (λ x. InFamilies x t) same m))
        | inr r ↦ inr (h.1 r)
      ]),
    )

In-unit_addresses :
    (units : List UnitEntry) (t : UnitAddress) → In t (unit_addresses units) ↔ InUnits units t
unfolding unit_addresses
In-unit_addresses [] t = (λ lost. lost, λ lost. lost)
In-unit_addresses (unit ∷ units) t =
    unit_round unit.number unit.families (unit_addresses units) (InUnits units t) t
      (In-unit_addresses units t)

-- What `collectAddresses` gives is what the interface has.
pub In-collect_addresses :
    (interface : Option InterfaceConfig) (t : UnitAddress)
    → In t (collect_addresses interface) ↔ HasAddress interface t
unfolding collect_addresses
In-collect_addresses none t = (λ lost. lost, λ lost. lost)
In-collect_addresses (some interface) t = In-unit_addresses interface.units t

is_address-same : (a t : UnitAddress) → is_address a t ≡ true → a ≡ t
is_address-same a t h =
    let n = (==_iff a.unit_num t.unit_num).0 (ground (arith, h)) in
    let f = (eq_iff a.family t.family).0 (ground (arith, h)) in
    let d = (eq_iff a.address t.address).0 (ground (arith, h)) in same_address n f d

is_address_refl : (a t : UnitAddress) → a ≡ t → is_address a t ≡ true
is_address_refl a t e =
    ground
      (arith, e, eq_iff a.family t.family, eq_iff a.address t.address, ==_iff a.unit_num t.unit_num)

-- The test of the program is membership.
pub contains_address-In :
    (addresses : List UnitAddress) (t : UnitAddress)
    → (contains_address addresses t ≡ true) ↔ In t addresses
unfolding contains_address
contains_address-In [] t = (λ h. cc, λ lost. absurd lost)
contains_address-In (a ∷ addresses) t =
    let rest = contains_address-In addresses t in
    (
      λ h. elim (Bool-cases (is_address a t)) [
        | inl same ↦ inl (is_address-same a t same)
        | inr other ↦ inr (rest.0 (ground (arith, h, other)))
      ],
      λ h. elim h [
        | inl e ↦ ground (arith, is_address_refl a t e)
        | inr i ↦ ground (arith, rest.1 i)
      ],
    )
