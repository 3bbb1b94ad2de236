-- ===== src/Engine/Diff/Missing.antt =====
-- The addresses that both loops of `diffInterface` in internal/engine/diff.go find missing.
use text.Mathlib.TextEquality.{eq_iff}
use arca_router.Prelude.{true, false, not, ◌&&◌, List, [], ◌∷◌, ◌≡◌, refl, arith, ==_iff}
use arca_router.Engine.Diff.{UnitAddress, is_address, contains_address, missing_from, is_empty}

is_address_congr :
    (a b target : UnitAddress) → is_address a b ≡ true → is_address a target ≡ is_address b target
is_address_congr a b target h =
    ground
      (arith, h, eq_iff a.family b.family, eq_iff a.address b.address, ==_iff a.unit_num b.unit_num)

contains_address_congr :
    (known : List UnitAddress) (a target : UnitAddress)
    → is_address a target ≡ true
    → contains_address known a ≡ contains_address known target
unfolding contains_address
contains_address_congr [] a target h = refl
contains_address_congr (k ∷ known) a target h = ground (
  arith,
  h,
  contains_address_congr known a target h,
  eq_iff a.family target.family,
  eq_iff a.address target.address,
  ==_iff a.unit_num target.unit_num,
)

-- The reported addresses are those of one interface that the other has not.
pub contains_address-missing_from :
    (known addresses : List UnitAddress) (target : UnitAddress)
    → contains_address (missing_from known addresses) target
      ≡ (contains_address addresses target && not (contains_address known target))
unfolding contains_address missing_from
contains_address-missing_from known [] target = refl
contains_address-missing_from known (a ∷ addresses) target = ground (
  arith,
  contains_address-missing_from known addresses target,
  contains_address_congr known a target,
)

pub is_empty-contains_address :
    (addresses : List UnitAddress) (target : UnitAddress)
    → is_empty addresses ≡ true
    → contains_address addresses target ≡ false
unfolding contains_address
is_empty-contains_address [] target h = refl
is_empty-contains_address (a ∷ addresses) target h = absurd (ground (arith, h))

self_address : (a : UnitAddress) → is_address a a ≡ true
self_address a =
    ground
      (arith, eq_iff a.family a.family, eq_iff a.address a.address, ==_iff a.unit_num a.unit_num)

pub nothing_missing :
    (known addresses : List UnitAddress)
    → ((target : UnitAddress)
        → contains_address addresses target ≡ true
        → contains_address known target ≡ true)
    → is_empty (missing_from known addresses) ≡ true
unfolding contains_address missing_from
nothing_missing known [] all = refl
nothing_missing known (a ∷ addresses) all = ground (
  arith,
  all a,
  self_address a,
  nothing_missing known addresses λ target h. all target (ground (arith, h)),
)
