-- ===== src/Engine/Rollback.antt =====
-- Undoing a transaction whose plugins keep the contract of internal/engine/plugin.go.
use arca_router.Prelude.{List, [], ◌∷◌, none, ◌≡◌, refl, ap}
use arca_router.Engine.{Plugin, rollback}

-- Rolling back right after an apply, also one that failed, succeeds and restores the system.
abbrev pub Undoes : {D S : Type 0} → D → Plugin D S → Type 0
Undoes {S = S} diff p =
    (system : S) → p.rollback_changes diff (p.apply_changes diff system).1 ≡ (none, system)

abbrev pub All : {A : Type 0} → (A → Type 0) → List A → Type 0
All P [] = Unit {0}
All P (x ∷ xs) = P x × All P xs

-- The plugins applied so far, the newest first, undo to `before`.
pub rollback-apply :
    {D S : Type 0} (diff : D) (p : Plugin D S) (applied : List (Plugin D S)) (system : S)
    → Undoes diff p
    → rollback diff (p ∷ applied) (p.apply_changes diff system).1 ≡ rollback diff applied system
unfolding rollback
rollback-apply diff p applied system undoes =
    rw (ap (λ u. u.0) (undoes system), ap (λ u. u.1) (undoes system)) refl
