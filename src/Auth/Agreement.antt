-- ===== src/Auth/Agreement.antt =====
-- The permissions of internal/auth/auth.go beside those of pkg/netconf/server.go.
use text.Mathlib.Text.{◌==◌ as str_eq}
use text.Mathlib.TextEquality.{eq_iff}
use arca_router.Prelude.{
  Bool, true, false, not, ◌&&◌, String, ◌≡◌, refl, sym, ap, ◌∙◌, subst, arith, Bool-cases, inl, inr,
}
use arca_router.Datastore.Table.{select}
use arca_router.Auth.{has_role, is_permitted}
use arca_router.Netconf.Handlers.Dispatch.{
  Operation, get_config_op, get_op, lock_op, unlock_op, edit_config_op, validate_op, commit_op,
  discard_changes_op, copy_config_op, delete_config_op, close_session_op, kill_session_op,
  read_only_ops, operator_ops, check_rbac,
}

abbrev pub operation_name : Operation → String
operation_name get_config_op = "get-config"
operation_name get_op = "get"
operation_name lock_op = "lock"
operation_name unlock_op = "unlock"
operation_name edit_config_op = "edit-config"
operation_name validate_op = "validate"
operation_name commit_op = "commit"
operation_name discard_changes_op = "discard-changes"
operation_name copy_config_op = "copy-config"
operation_name delete_config_op = "delete-config"
operation_name close_session_op = "close-session"
operation_name kill_session_op = "kill-session"

abbrev pub deletes_config : Operation → Bool
deletes_config delete_config_op = true
deletes_config _ = false

-- Both tables, at one role and one operation.
abbrev Same : String → Operation → Type 0
Same role operation =
    is_permitted role (operation_name operation)
    ≡ (check_rbac role operation && not (deletes_config operation))

role_cases :
    (P : String → Type 0) (role : String)
    → P "read-only"
    → P "operator"
    → P "admin"
    → (str_eq "read-only" role ≡ false
        → str_eq "operator" role ≡ false
        → str_eq "admin" role ≡ false
        → P role)
    → P role
role_cases P role a b c d = elim (Bool-cases (str_eq "read-only" role)) [
  | inl e ↦ subst P ((eq_iff "read-only" role).0 e) a
  | inr e ↦ elim (Bool-cases (str_eq "operator" role)) [
    | inl f ↦ subst P ((eq_iff "operator" role).0 f) b
    | inr f ↦ elim (Bool-cases (str_eq "admin" role)) [
      | inl g ↦ subst P ((eq_iff "admin" role).0 g) c
      | inr g ↦ d e f g
    ]
  ]
]

flipped : (x y : String) → str_eq x y ≡ false → str_eq y x ≡ false
flipped x y h = ground (arith, h, eq_iff x y, eq_iff y x)

module _ (role : String) (a : str_eq "read-only" role ≡ false) (b : str_eq "operator" role ≡ false)
    (c : str_eq "admin" role ≡ false) where
  check_rbac-unknown : (operation : Operation) → check_rbac role operation ≡ false
  unfolding check_rbac
  check_rbac-unknown operation =
      rw (flipped "read-only" role a, flipped "operator" role b) (flipped "admin" role c)

  is_permitted-unknown :
      (operation : Operation) → is_permitted role (operation_name operation) ≡ false
  unfolding is_permitted select has_role
  is_permitted-unknown get_config_op = rw (a, b, c) refl
  is_permitted-unknown get_op = rw (a, b, c) refl
  is_permitted-unknown lock_op = rw (b, c) refl
  is_permitted-unknown unlock_op = rw (b, c) refl
  is_permitted-unknown edit_config_op = rw (b, c) refl
  is_permitted-unknown validate_op = rw (b, c) refl
  is_permitted-unknown commit_op = rw (b, c) refl
  is_permitted-unknown discard_changes_op = rw (b, c) refl
  is_permitted-unknown copy_config_op = rw (b, c) refl
  is_permitted-unknown delete_config_op = refl
  is_permitted-unknown close_session_op = rw (b, c) refl
  is_permitted-unknown kill_session_op = rw c refl

-- The three roles that there are.
known_roles :
    (operation : Operation)
    → Same "read-only" operation × Same "operator" operation × Same "admin" operation
unfolding is_permitted select has_role check_rbac read_only_ops operator_ops
known_roles get_config_op = (refl, refl, refl)
known_roles get_op = (refl, refl, refl)
known_roles lock_op = (refl, refl, refl)
known_roles unlock_op = (refl, refl, refl)
known_roles edit_config_op = (refl, refl, refl)
known_roles validate_op = (refl, refl, refl)
known_roles commit_op = (refl, refl, refl)
known_roles discard_changes_op = (refl, refl, refl)
known_roles copy_config_op = (refl, refl, refl)
known_roles delete_config_op = (refl, refl, refl)
known_roles close_session_op = (refl, refl, refl)
known_roles kill_session_op = (refl, refl, refl)

-- The gRPC service and the NETCONF server permit the same operations to the same roles, but for
-- delete-config: NETCONF has it for operators and administrators, and the other table for nobody.
pub is_permitted-check_rbac :
    (role : String) (operation : Operation)
    → is_permitted role (operation_name operation)
      ≡ (check_rbac role operation && not (deletes_config operation))
is_permitted-check_rbac role operation =
    let (a, b, c) = known_roles operation in
    role_cases (λ r. Same r operation) role a b c
      λ x y z.
        let refused = check_rbac-unknown role x y z operation in
        is_permitted-unknown role x y z operation
        ∙ sym (ap (λ d. d && not (deletes_config operation)) refused)
