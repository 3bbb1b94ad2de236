-- ===== src/Engine/Diff/Equality/Maps.antt =====
-- Maps that the loops of internal/engine/diff.go find equal have equal entries both ways: the code
-- looks only one way and counts.
use text.Mathlib.Text.{◌==◌ as str_eq}
use text.Mathlib.TextEquality.{eq_iff}
use arca_router.Prelude.{
  Bool, true, false, [], ◌∷◌, Option, none, some, String, ◌≡◌, refl, arith, if◌then◌else◌, length,
  suc, Option-cases, Bool-cases, inl, inr, ◌⊎◌,
}
use arca_router.Datastore.Table.{
  select, delete, delete_if, HasUniqueKeys, select-delete_if, delete_if-HasUniqueKeys,
}
use arca_router.Engine.Diff.{Entry, Map, name_of, lookup}
use arca_router.Engine.Diff.Equality.{all_in, maps_equal}

module _ {V : Type 0} where
  length-delete_absent :
      (name : String) (b : Map V) → lookup name b ≡ none → length (delete name_of name b) ≡ length b
  unfolding select delete_if
  length-delete_absent name [] h = refl
  length-delete_absent name (q ∷ b) h = ground (arith, h, length-delete_absent name b)

  length-delete_found :
      (name : String) (b : Map V) {found : Entry V}
      → HasUniqueKeys name_of b
      → lookup name b ≡ some found
      → length b ≡ suc (length (delete name_of name b))
  unfolding select delete_if
  length-delete_found name [] u h = absurd (ground (arith, h))
  length-delete_found name (q ∷ b) {found} u h = ground (
    arith,
    h,
    length-delete_found name b {found = found} u.1,
    length-delete_absent name b,
    u.0,
    eq_iff q.name name,
  )

  lookup-delete :
      (gone name : String) (b : Map V)
      → HasUniqueKeys name_of b
      → lookup name (delete name_of gone b) ≡ (if str_eq gone name then none else lookup name b)
  lookup-delete gone name b u = ground (arith, select-delete_if name_of gone name (λ _. true) b u)

  -- A map that has as many entries as another and all its names has no other names.
  no_more_names :
      (a b : Map V)
      → HasUniqueKeys name_of a
      → HasUniqueKeys name_of b
      → length a ≡ length b
      → ((name : String) → lookup name b ≡ none → lookup name a ≡ none)
      → (name : String) → lookup name a ≡ none
      → lookup name b ≡ none
  unfolding select
  no_more_names [] [] ua ub l all name h = refl
  no_more_names [] (q ∷ b) ua ub l all name h = absurd (omega (arith, l))
  no_more_names (p ∷ a) b ua ub l all name h = elim (Option-cases (lookup p.name b)) [
    | inl n ↦ absurd (ground (arith, all p.name n, eq_iff p.name p.name))
    | inr (found, f) ↦
        let b' = delete name_of p.name b in
        let law = λ (k : String). lookup-delete p.name k b ub in
        let rest =
          no_more_names a b' ua.1 (delete_if-HasUniqueKeys name_of p.name (λ _. true) b ub)
            (omega (arith, l, length-delete_found p.name b ub f))
            (λ k none_there. ground (arith, law k, none_there, all k, ua.0, eq_iff p.name k)) name
            (ground (arith, h)) in
        ground (arith, rest, law name, h, eq_iff p.name name)
  ]

module _ {V : Type 0} (equal : V → V → Bool) where
  -- What two maps have under a name is missing in both or equal.
  abbrev pub Same : Option (Entry V) → Option (Entry V) → Type 0
  Same none none = Unit {0}
  Same none (some q) = ◌≡◌ {A = Bool} true false
  Same (some p) none = ◌≡◌ {A = Bool} true false
  Same (some p) (some q) = equal p.value q.value ≡ true

  all_in-lookup :
      (a b : Map V) (name : String) {p : Entry V}
      → all_in equal a b ≡ true
      → lookup name a ≡ some p
      → (q : Entry V) × (lookup name b ≡ some q) × (equal p.value q.value ≡ true)
  unfolding all_in select
  all_in-lookup [] b name h f = absurd (ground (arith, f))
  all_in-lookup (x ∷ a) b name {p} h f = elim (Option-cases (lookup x.name b)) [
    | inl n ↦ absurd (ground (arith, h, n))
    | inr (q, e) ↦ elim (Bool-cases (str_eq x.name name)) [
      | inl same ↦ (q, ground (arith, e, same, eq_iff x.name name), ground (arith, h, e, f, same))
      | inr differs ↦
          all_in-lookup a b name {p = p} (ground (arith, h, e)) (ground (arith, f, differs))
    ]
  ]

  all_in_of_lookup :
      (a b : Map V)
      → HasUniqueKeys name_of a
      → ((name : String) (p : Entry V)
          → lookup name a ≡ some p
          → (q : Entry V) × (lookup name b ≡ some q) × (equal p.value q.value ≡ true))
      → all_in equal a b ≡ true
  unfolding all_in select
  all_in_of_lookup [] b u found = refl
  all_in_of_lookup (x ∷ a) b u found =
      let (q, e, same) = found x.name x (ground (arith, eq_iff x.name x.name)) in
      let rest =
        all_in_of_lookup a b u.1
          λ name p f. found name p (ground (arith, f, u.0, eq_iff x.name name)) in
      ground (arith, e, same, rest)

  pub maps_equal_self :
      (a : Map V)
      → HasUniqueKeys name_of a
      → ((name : String) (p : Entry V) → lookup name a ≡ some p → equal p.value p.value ≡ true)
      → maps_equal equal a a ≡ true
  unfolding maps_equal
  maps_equal_self a u self =
      let all = all_in_of_lookup a a u λ name p f. (p, f, self name p f) in ground (arith, all)

  -- Maps that the code finds equal have the same names, with equal values under each.
  pub maps_equal_sound :
      (a b : Map V)
      → HasUniqueKeys name_of a
      → HasUniqueKeys name_of b
      → maps_equal equal a b ≡ true
      → (name : String) → Same (lookup name a) (lookup name b)
  unfolding maps_equal
  maps_equal_sound a b ua ub h name = elim (Option-cases (lookup name a)) [
    | inl n ↦
        let absent =
          no_more_names a b ua ub (ground (arith, h))
            (λ k none_there. missing k none_there (Option-cases (lookup k a))) name n in
        rw (n, absent) tt
    | inr (p, e) ↦ let (q, f, same) = all_in-lookup a b name (ground (arith, h)) e in rw (e, f) same
  ]
    where
      missing :
          (k : String)
          → lookup k b ≡ none
          → (lookup k a ≡ none) ⊎ ((p : Entry V) × (lookup k a ≡ some p))
          → lookup k a ≡ none
      missing k none_there (inl n) = n
      missing k none_there (inr (p, e)) =
          let (q, f, same) = all_in-lookup a b k (ground (arith, h)) e in
          absurd (ground (arith, f, none_there))
