-- ===== src/Auth/Tests.antt =====
-- Permissions of an operator.
use arca_router.Prelude.{false, ◌≡◌}
use arca_router.Auth.{is_permitted}
use arca_router.Auth.Agreement.{is_permitted-check_rbac}
use arca_router.Netconf.Handlers.Dispatch.{delete_config_op, operator_ops, check_rbac}

is_permitted-check_rbac_example : is_permitted "operator" "delete-config" ≡ false
unfolding check_rbac operator_ops
is_permitted-check_rbac_example = is_permitted-check_rbac "operator" delete_config_op
