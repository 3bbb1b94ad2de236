-- ===== src/Netconf/RateLimit/Trackers.antt =====
-- The tracker of one name after the changes that pkg/netconf/rate_limit.go makes to a map.
use text.Mathlib.Text.{◌==◌ as str_eq}
use text.Mathlib.TextEquality.{eq_iff}
use arca_router.Prelude.{
  ℕ, ◌≤◌, true, List, [], ◌∷◌, none, some, String, ◌≡◌, refl, arith, if◌then◌else◌, length,
}
use arca_router.Datastore.Table.{select, delete, HasUniqueKeys, select-replace, select-delete_if}
use arca_router.Netconf.RateLimit.{
  FailureTracker, Tracked, name_of, tracker_of, put_tracker, clean_tracker, clean_trackers,
  remove_expired_failures,
}

pub tracker_of-put_tracker :
    (name other : String) (tracker : FailureTracker) (entries : List Tracked)
    → HasUniqueKeys name_of entries
    → tracker_of other (put_tracker name tracker entries)
      ≡ (if str_eq name other then some tracker else tracker_of other entries)
tracker_of-put_tracker name other tracker entries u =
    ground
      (arith, select-replace name_of other (record { name = name; tracker = tracker }) entries u)

pub tracker_of-delete :
    (name other : String) (entries : List Tracked)
    → HasUniqueKeys name_of entries
    → tracker_of other (delete name_of name entries)
      ≡ (if str_eq name other then none else tracker_of other entries)
tracker_of-delete name other entries u =
    ground (arith, select-delete_if name_of name other (λ _. true) entries u)

module _ (duration window now : ℕ) where
  select-clean_trackers-none :
      (name : String) (entries : List Tracked)
      → select name_of name entries ≡ none
      → select name_of name (clean_trackers duration window now entries) ≡ none
  unfolding select clean_trackers
  select-clean_trackers-none name [] h = refl
  select-clean_trackers-none name (entry ∷ entries) h =
      ground (arith, h, select-clean_trackers-none name entries)

  pub tracker_of-clean_trackers :
      (name : String) (entries : List Tracked)
      → HasUniqueKeys name_of entries
      → tracker_of name (clean_trackers duration window now entries)
        ≡ elim (tracker_of name entries) [
          | none ↦ none
          | some tracker ↦ clean_tracker duration window now tracker
        ]
  unfolding select clean_trackers
  tracker_of-clean_trackers name [] u = refl
  tracker_of-clean_trackers name (entry ∷ entries) u = ground (
    arith,
    tracker_of-clean_trackers name entries u.1,
    select-clean_trackers-none name entries,
    eq_iff entry.name name,
    u.0,
  )

  pub clean_trackers-HasUniqueKeys :
      (entries : List Tracked)
      → HasUniqueKeys name_of entries
      → HasUniqueKeys name_of (clean_trackers duration window now entries)
  unfolding select clean_trackers
  clean_trackers-HasUniqueKeys [] u = tt
  clean_trackers-HasUniqueKeys (entry ∷ entries) u = ground (
    arith,
    clean_trackers-HasUniqueKeys entries u.1,
    select-clean_trackers-none entry.name entries u.0,
  )

pub length-remove_expired_failures :
    (now window : ℕ) (failures : List ℕ)
    → length (remove_expired_failures now window failures) ≤ length failures
unfolding remove_expired_failures
length-remove_expired_failures now window [] = omega arith
length-remove_expired_failures now window (at ∷ failures) =
    ground (arith, length-remove_expired_failures now window failures)
