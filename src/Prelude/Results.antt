-- ===== src/Prelude/Results.antt =====
-- Go's `(value, error)` pairs as a sum: a value, or the error of the branch that returned it.
use mathlib.Core.Path.{◌≡◌, refl}
use mathlib.Core.Logic.{◌⊎◌, inl, inr}
use mathlib.Core.Option.{Option, none, some}

pub data Result {ℓ} (E : Type 0) (A : Type ℓ) : Type ℓ where
  err : E → Result E A
  ok : A → Result E A

module _ {E : Type 0} where
  -- `if err != nil { return …, err }` between two calls.
  infixl 5 ◌>>=◌
  abbrev pub ◌>>=◌ {ℓ κ} : {A : Type ℓ} {B : Type κ} → Result E A → (A → Result E B) → Result E B
  ◌>>=◌ (err failure) next = err failure
  ◌>>=◌ (ok value) next = next value

  -- A missing value becomes the given error.
  abbrev pub or_fail {ℓ} : {A : Type ℓ} → Option A → E → Result E A
  or_fail (some value) failure = ok value
  or_fail none failure = err failure

  module _ {ℓ} {A : Type ℓ} where
    pub or_fail-eq-ok :
        (found : Option A) (failure : E) {value : A}
        → or_fail found failure ≡ ok value
        → found ≡ some value
    or_fail-eq-ok (some v) failure same = cc
    or_fail-eq-ok none failure same = cc

    -- Where two calls succeed in a row, so does the first.
    pub >>=-eq-ok {κ} :
        {B : Type κ} (first : Result E A) (next : A → Result E B) {out : B}
        → ◌>>=◌ first next ≡ ok out
        → (value : A) × (first ≡ ok value) × (next value ≡ ok out)
    >>=-eq-ok (err failure) next same = cc
    >>=-eq-ok (ok value) next same = (value, refl, same)

    pub Result-cases :
        (r : Result E A) → ((failure : E) × (r ≡ err failure)) ⊎ ((value : A) × (r ≡ ok value))
    Result-cases (err failure) = inl (failure, refl)
    Result-cases (ok value) = inr (value, refl)
