-- ===== src/Datastore/Table.antt =====
-- Tables with a text primary key, as the SQL statements of pkg/datastore use them.
use text.Mathlib.Text.{◌==◌ as str_eq}
use text.Mathlib.TextEquality.{eq_iff}
use mathlib.Core.Option
use arca_router.Prelude.{
  Bool, true, ◌&&◌, List, [], ◌∷◌, ◌++◌, Option, none, some, String, ◌≡◌, refl, arith,
  if◌then◌else◌,
}

module _ {R : Type 0} (key : R → String) where
  -- `SELECT … WHERE key = ?`
  unfoldable pub select : String → List R → Option R
  select k [] = none
  select k (r ∷ rs) = if str_eq (key r) k then some r else select k rs

  -- `DELETE … WHERE key = ? AND …`; the rest of the condition is `also`.
  unfoldable pub delete_if : String → (R → Bool) → List R → List R
  delete_if k also [] = []
  delete_if k also (r ∷ rs) =
      let rest = delete_if k also rs in if str_eq (key r) k && also r then rest else r ∷ rest

  abbrev pub delete : String → List R → List R
  delete k = delete_if k (λ _. true)

  -- `UPDATE … WHERE key = ?`
  unfoldable pub update : String → (R → R) → List R → List R
  update k f [] = []
  update k f (r ∷ rs) = (if str_eq (key r) k then f r else r) ∷ update k f rs

  -- `INSERT`: refused where the primary key is taken.
  unfoldable pub insert : R → List R → Option (List R)
  unfolding select
  insert r rs = elim (select (key r) rs) [ none ↦ some (rs ++ r ∷ []) | some _ ↦ none ]

  -- `INSERT OR REPLACE`
  unfoldable pub replace : R → List R → List R
  unfolding delete_if
  replace r rs = delete (key r) rs ++ r ∷ []

  -- The primary key constraint.
  abbrev pub HasUniqueKeys : List R → Type 0
  HasUniqueKeys [] = Unit {0}
  HasUniqueKeys (r ∷ rs) = (select (key r) rs ≡ none) × HasUniqueKeys rs

  pub select-append :
      (k : String) (rs : List R) (r : R)
      → select k (rs ++ r ∷ [])
        ≡ elim (select k rs) [ some q ↦ some q | none ↦ if str_eq (key r) k then some r else none ]
  unfolding select
  select-append k [] r = refl
  select-append k (q ∷ rs) r = ground (arith, select-append k rs r)

  pub select-delete_if :
      (k j : String) (also : R → Bool) (rs : List R)
      → HasUniqueKeys rs
      → select j (delete_if k also rs) ≡ elim (select j rs) [
        | none ↦ none
        | some r ↦ if str_eq k j && also r then none else some r
      ]
  unfolding select delete_if
  select-delete_if k j also [] u = refl
  select-delete_if k j also (r ∷ rs) u =
      ground
        (arith, select-delete_if k j also rs u.1, eq_iff (key r) k, eq_iff (key r) j, eq_iff k j)

  pub select-update :
      (k j : String) (f : R → R) (rs : List R)
      → ((r : R) → key (f r) ≡ key r)
      → select j (update k f rs) ≡ (if str_eq k j then Option.map f (select j rs) else select j rs)
  unfolding select update
  select-update k j f [] same = ground arith
  select-update k j f (r ∷ rs) same =
      ground
        (arith, select-update k j f rs same, same r, eq_iff (key r) k, eq_iff (key r) j, eq_iff k j)

  pub insert-eq-append :
      (r : R) (rs : List R) {rs' : List R} → insert r rs ≡ some rs' → rs' ≡ rs ++ r ∷ []
  unfolding insert
  insert-eq-append r rs h = ground arith

  pub select-insert :
      (j : String) (r : R) (rs : List R) {rs' : List R}
      → insert r rs ≡ some rs'
      → (select (key r) rs ≡ none)
        × (select j rs' ≡ (if str_eq (key r) j then some r else select j rs))
  unfolding insert
  select-insert j r rs h = ground (arith, select-append j rs r, eq_iff (key r) j)

  pub select-replace :
      (j : String) (r : R) (rs : List R)
      → HasUniqueKeys rs
      → select j (replace r rs) ≡ (if str_eq (key r) j then some r else select j rs)
  unfolding replace
  select-replace j r rs u =
      ground
        (arith, select-append j (delete (key r) rs) r, select-delete_if (key r) j (λ _. true) rs u)

  pub append-HasUniqueKeys :
      (rs : List R) (r : R)
      → HasUniqueKeys rs
      → select (key r) rs ≡ none
      → HasUniqueKeys (rs ++ r ∷ [])
  unfolding select
  append-HasUniqueKeys [] r u h = (refl, tt)
  append-HasUniqueKeys (q ∷ rs) r u h = ground (
    arith,
    append-HasUniqueKeys rs r u.1,
    select-append (key q) rs r,
    eq_iff (key q) (key r),
    eq_iff (key r) (key q),
  )

  pub insert-HasUniqueKeys :
      (r : R) (rs : List R) {rs' : List R}
      → insert r rs ≡ some rs'
      → HasUniqueKeys rs
      → HasUniqueKeys rs'
  unfolding insert
  insert-HasUniqueKeys r rs h u = ground (arith, append-HasUniqueKeys rs r u)

  pub delete_if-HasUniqueKeys :
      (k : String) (also : R → Bool) (rs : List R)
      → HasUniqueKeys rs
      → HasUniqueKeys (delete_if k also rs)
  unfolding delete_if
  delete_if-HasUniqueKeys k also [] u = tt
  delete_if-HasUniqueKeys k also (r ∷ rs) u =
      ground (arith, delete_if-HasUniqueKeys k also rs u.1, select-delete_if k (key r) also rs u.1)

  pub update-HasUniqueKeys :
      (k : String) (f : R → R) (rs : List R)
      → ((r : R) → key (f r) ≡ key r)
      → HasUniqueKeys rs
      → HasUniqueKeys (update k f rs)
  unfolding update
  update-HasUniqueKeys k f [] same u = tt
  update-HasUniqueKeys k f (r ∷ rs) same u =
      ground
        (arith, update-HasUniqueKeys k f rs same u.1, select-update k (key r) f rs same, same r)

  pub replace-HasUniqueKeys :
      (r : R) (rs : List R) → HasUniqueKeys rs → HasUniqueKeys (replace r rs)
  unfolding replace
  replace-HasUniqueKeys r rs u =
      append-HasUniqueKeys (delete (key r) rs) r (delete_if-HasUniqueKeys (key r) (λ _. true) rs u)
        (ground (arith, select-delete_if (key r) (key r) (λ _. true) rs u, eq_iff (key r) (key r)))

  pub key-select : (k : String) (rs : List R) (r : R) → select k rs ≡ some r → key r ≡ k
  unfolding select
  key-select k [] r h = cc
  key-select k (q ∷ rs) r h = ground (arith, key-select k rs r, eq_iff (key q) k)

  -- `UPDATE` with a whole row of the same key.
  pub select-update_row :
      (j : String) (row : R) (rs : List R)
      → select j (update (key row) (λ _. row) rs)
        ≡ (if str_eq (key row) j then Option.map (λ _. row) (select j rs) else select j rs)
  unfolding select update
  select-update_row j row [] = ground arith
  select-update_row j row (q ∷ rs) = ground (
    arith,
    select-update_row j row rs,
    eq_iff (key q) (key row),
    eq_iff (key q) j,
    eq_iff (key row) j,
  )

  pub update_row-HasUniqueKeys :
      (row : R) (rs : List R) → HasUniqueKeys rs → HasUniqueKeys (update (key row) (λ _. row) rs)
  unfolding update
  update_row-HasUniqueKeys row [] u = tt
  update_row-HasUniqueKeys row (q ∷ rs) u = ground (
    arith,
    update_row-HasUniqueKeys row rs u.1,
    select-update_row (key q) row rs,
    select-update_row (key row) row rs,
    eq_iff (key q) (key row),
    eq_iff (key row) (key q),
  )
