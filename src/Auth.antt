-- ===== src/Auth.antt =====
-- internal/auth/auth.go: the permissions of the roles. Passwords and the audit logger are left out.
pub mod Agreement
mod Tests
use text.Mathlib.Text.{◌==◌ as str_eq}
use arca_router.Prelude.{Bool, true, false, ◌||◌, List, [], ◌∷◌, Option, none, some, String}
use arca_router.Datastore.Table.{select}

abbrev pub role_admin : String
role_admin = "admin"

abbrev pub role_operator : String
role_operator = "operator"

abbrev pub role_read_only : String
role_read_only = "read-only"

-- An entry of `operationPermissions`.
pub record Permission : Type 0 where
  pub operation : String
  pub roles : List String

abbrev everyone : List String
everyone = role_read_only ∷ role_operator ∷ role_admin ∷ []

abbrev writers : List String
writers = role_operator ∷ role_admin ∷ []

abbrev permission : String → List String → Permission
permission operation roles = record { operation = operation; roles = roles }

abbrev pub operation_permissions : List Permission
operation_permissions =
    permission "get-config" everyone
    ∷ permission "get" everyone
    ∷ permission "edit-config" writers
    ∷ permission "lock" writers
    ∷ permission "unlock" writers
    ∷ permission "commit" writers
    ∷ permission "discard-changes" writers
    ∷ permission "validate" writers
    ∷ permission "copy-config" writers
    ∷ permission "close-session" writers
    ∷ permission "kill-session" (role_admin ∷ [])
    ∷ []

unfoldable pub has_role : String → List String → Bool
has_role role [] = false
has_role role (r ∷ allowed) = str_eq r role || has_role role allowed

unfoldable pub is_permitted : String → String → Bool
unfolding select
is_permitted role operation =
    elim (select (λ (p : Permission). p.operation) operation operation_permissions) [
      | none ↦ false
      | some p ↦ has_role role p.roles
    ]
