-- ===== src/Engine/Transaction.antt =====
-- Phase 2 of `Apply` in internal/engine/engine.go: what a transaction over the plugins leaves.
use arca_router.Prelude.{
  List, [], ◌∷◌, ◌++◌, none, some, String, ◌≡◌, refl, ap, sym, subst, ◌∙◌, Option-cases, inl, inr,
  true, arith,
}
use arca_router.Engine.{Plugin, ApplyError, apply_error, rollback, apply_plugins}
use arca_router.Engine.Rollback.{Undoes, All, rollback-apply}

-- Every plugin in turn applied the difference without an error.
pub data Applies {D S : Type 0} (diff : D) : List (Plugin D S) → S → S → Type 0 where
  nothing : {system : S} → Applies diff [] system system
  next :
      {p : Plugin D S} {plugins : List (Plugin D S)} {system after : S}
      → (p.apply_changes diff system).0 ≡ none
      → Applies diff plugins (p.apply_changes diff system).1 after
      → Applies diff (p ∷ plugins) system after

-- One list turned over onto another.
abbrev pub turn_onto : {A : Type 0} → List A → List A → List A
turn_onto [] ys = ys
turn_onto (x ∷ xs) ys = turn_onto xs (x ∷ ys)

-- The plugins `done` applied in order, `failing` did not, and all of them, `failing` first, were
-- rolled back in the reverse order; the plugins of `untouched` were never called.
pub record Failed {D S : Type 0} (diff : D) (plugins applied : List (Plugin D S)) (system after : S)
    (e : ApplyError) : Type 0 where
  pub done : List (Plugin D S)
  pub untouched : List (Plugin D S)
  pub failing : Plugin D S
  pub failure : String
  pub split : plugins ≡ done ++ failing ∷ untouched
  pub middle : S
  pub applies : Applies diff done system middle
  pub fails : (failing.apply_changes diff middle).0 ≡ some failure
  pub rolled_back :
      rollback diff (failing ∷ turn_onto done applied) (failing.apply_changes diff middle).1
      ≡ (e.rollback_diagnostics, after)
  pub error : e ≡ apply_error failing failure e.rollback_diagnostics

module _ {D S : Type 0} (diff : D) where
  apply_plugins-applied :
      (p : Plugin D S) (plugins applied : List (Plugin D S)) (system : S)
      → (p.apply_changes diff system).0 ≡ none
      → apply_plugins diff (p ∷ plugins) applied system
        ≡ apply_plugins diff plugins (p ∷ applied) (p.apply_changes diff system).1
  unfolding apply_plugins
  apply_plugins-applied p plugins applied system e = rw e refl

  apply_plugins-failing :
      (p : Plugin D S) (plugins applied : List (Plugin D S)) (system : S) {failure : String}
      → (p.apply_changes diff system).0 ≡ some failure
      → let undone = rollback diff (p ∷ applied) (p.apply_changes diff system).1 in
        apply_plugins diff (p ∷ plugins) applied system
        ≡ (some (apply_error p failure undone.0), undone.1)
  unfolding apply_plugins
  apply_plugins-failing p plugins applied system e = rw e refl

  pub apply_plugins-Applies :
      (plugins applied : List (Plugin D S)) (system : S) {after : S}
      → apply_plugins diff plugins applied system ≡ (none, after)
      → Applies diff plugins system after
  unfolding apply_plugins
  apply_plugins-Applies [] applied system h =
      subst (Applies diff [] system) (ap (λ r. r.1) h) nothing
  apply_plugins-Applies (p ∷ plugins) applied system h =
      elim (Option-cases (p.apply_changes diff system).0) [
        | inl e ↦ next e (
            apply_plugins-Applies plugins (p ∷ applied) _
              (sym (apply_plugins-applied p plugins applied system e) ∙ h))
        | inr (failure, e) ↦
            absurd (ground (arith, apply_plugins-failing p plugins applied system e, h))
      ]

  pub apply_plugins-Failed :
      (plugins applied : List (Plugin D S)) (system : S) {after : S} {e : ApplyError}
      → apply_plugins diff plugins applied system ≡ (some e, after)
      → Failed diff plugins applied system after e
  unfolding apply_plugins
  apply_plugins-Failed [] applied system h = absurd (ground (arith, h))
  apply_plugins-Failed (p ∷ plugins) applied system h =
      elim (Option-cases (p.apply_changes diff system).0) [
        | inl e ↦
            let later =
              apply_plugins-Failed plugins (p ∷ applied) _
                (sym (apply_plugins-applied p plugins applied system e) ∙ h) in
            record {
              done = p ∷ later.done;
              untouched = later.untouched;
              failing = later.failing;
              failure = later.failure;
              split = ap (◌∷◌ p) later.split;
              middle = later.middle;
              applies = next e later.applies;
              fails = later.fails;
              rolled_back = later.rolled_back;
              error = later.error;
            }
        | inr (failure, e) ↦
            let same = sym (apply_plugins-failing p plugins applied system e) ∙ h in
            record {
              done = [];
              untouched = plugins;
              failing = p;
              failure = failure;
              split = refl;
              middle = system;
              applies = nothing;
              fails = e;
              rolled_back = cc same;
              error = cc same;
            }
      ]

  -- Plugins that keep the contract leave nothing behind when one of them fails.
  pub apply_plugins_restores :
      (plugins applied : List (Plugin D S)) (system : S) {before after : S} {e : ApplyError}
      → All (Undoes diff) plugins
      → rollback diff applied system ≡ ([], before)
      → apply_plugins diff plugins applied system ≡ (some e, after)
      → (after ≡ before) × (e.rollback_succeeded ≡ true)
  unfolding apply_plugins
  apply_plugins_restores [] applied system all undoes h = absurd (ground (arith, h))
  apply_plugins_restores (p ∷ plugins) applied system {before} all undoes h =
      elim (Option-cases (p.apply_changes diff system).0) [
        | inl e ↦
            apply_plugins_restores plugins (p ∷ applied) _ all.1 back
              (sym (apply_plugins-applied p plugins applied system e) ∙ h)
        | inr (failure, e) ↦
            let same = sym (apply_plugins-failing p plugins applied system e) ∙ h in
            (cc (same, back), ground (arith, same, back))
      ]
    where
      back : rollback diff (p ∷ applied) (p.apply_changes diff system).1 ≡ ([], before)
      back = rollback-apply diff p applied system all.0 ∙ undoes

  pub apply_plugins_complete :
      (plugins applied : List (Plugin D S)) {system after : S}
      → Applies diff plugins system after
      → apply_plugins diff plugins applied system ≡ (none, after)
  unfolding apply_plugins
  apply_plugins_complete [] applied nothing = refl
  apply_plugins_complete (p ∷ plugins) applied (next e rest) =
      apply_plugins-applied p plugins applied _ e
      ∙ apply_plugins_complete plugins (p ∷ applied) rest
