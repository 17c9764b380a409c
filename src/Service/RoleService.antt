-- ===== src/Service/RoleService.antt =====
-- internal/service/role.go and permission.go. Each transaction names its context `ctx` too, so
-- every statement in it is part of it.
pub mod Atomicity
pub mod Effects
use Prim.Native.String.{String}
use portal_backend.Prelude.{
  ℕ, Bool, true, false, not, ◌&&◌, ◌||◌, List, [], ◌∷◌, ◌++◌, Option, none, some, is_some, is_none,
  ◌==◌,
}
use portal_backend.Text.{Text, is_empty}
use portal_backend.Domain.{
  RoleCode, create_role as action_create_role, assign_permission as action_assign_permission,
  remove_permission as action_remove_permission, delete_role as action_delete_role,
}
use portal_backend.Errors.{
  app, err_invalid_input, err_internal_server, err_role_code_exists, err_role_not_found,
  err_permission_not_found, err_cannot_modify_system_role, err_role_in_use,
  err_invalid_replacement_role,
}
use portal_backend.Model.{Role, Permission, Json, text_value, id_value}
use portal_backend.World.{
  World, M, base_ctx, tx_ctx, fresh, pure, ◌>>=◌, ◌>>◌, map_err, or_err, nullable, ensure, ask,
  with_tx,
}
use portal_backend.Repo.Roles
use portal_backend.Repo.Users
use portal_backend.Service.{not_found_or}
use portal_backend.Service.Audit.{AuditMeta, AuditUser, log_with_metadata}

pub record CreateRoleInput : Type 0 where
  pub code : RoleCode
  pub name : Text

unfoldable pub role_fields : Role → List (String × Json)
role_fields r =
    ("role_id", id_value r.id)
    ∷ ("role_code", text_value r.code)
    ∷ ("role_name", text_value r.name)
    ∷ []

unfoldable pub grant_fields : Role → Permission → List (String × Json)
grant_fields r p =
    role_fields r
    ++ (("permission_id", id_value p.id) ∷ ("permission_code", text_value p.code) ∷ [])

unfoldable pub create_role : Option AuditMeta → Option AuditUser → CreateRoleInput → M Role
create_role meta actor input = do
  ensure (not (is_empty input.code || is_empty input.name)) (app err_invalid_input)
  existing ← or_err (app err_internal_server) (nullable (Roles.find_by_code base_ctx input.code))
  ensure (is_none existing) (app err_role_code_exists)
  id ← ask fresh
  let role : Role = record { id = id; code = input.code; name = input.name; is_system = false }
  with_tx (do
    or_err (app err_internal_server) (Roles.create tx_ctx role)
    log_with_metadata tx_ctx meta action_create_role actor none (some (role_fields role)))
  pure role

unfoldable pub list_roles : M (List (Role × List Permission))
list_roles = or_err (app err_internal_server) (Roles.list base_ctx)

unfoldable pub list_permission : M (List Permission)
list_permission = or_err (app err_internal_server) (Roles.list_permissions base_ctx)

unfoldable pub assign_permission : Option AuditMeta → Option AuditUser → ℕ → ℕ → M (Unit {0})
assign_permission meta actor role_id perm_id = with_tx (do
  role ←
      map_err (not_found_or (app err_role_not_found) (app err_internal_server))
        (Roles.find_by_id tx_ctx role_id)
  perm ←
      map_err (not_found_or (app err_permission_not_found) (app err_internal_server))
        (Roles.find_permission_by_id tx_ctx perm_id)
  ensure (not role.is_system) (app err_cannot_modify_system_role)
  or_err (app err_internal_server) (Roles.assign_permission tx_ctx role_id perm_id)
  log_with_metadata tx_ctx meta action_assign_permission actor none (some (grant_fields role perm)))

unfoldable pub remove_permission : Option AuditMeta → Option AuditUser → ℕ → ℕ → M (Unit {0})
remove_permission meta actor role_id perm_id = with_tx (do
  role ←
      map_err (not_found_or (app err_role_not_found) (app err_internal_server))
        (Roles.find_by_id tx_ctx role_id)
  perm ←
      map_err (not_found_or (app err_permission_not_found) (app err_internal_server))
        (Roles.find_permission_by_id tx_ctx perm_id)
  ensure (not role.is_system) (app err_cannot_modify_system_role)
  or_err (app err_internal_server) (Roles.remove_permission tx_ctx role_id perm_id)
  log_with_metadata tx_ctx meta action_remove_permission actor none (some (grant_fields role perm)))

-- the users of the role move to its replacement, if one is given
unfoldable pub move_users : ℕ → Option ℕ → M (Unit {0})
move_users role_id none = pure tt
move_users role_id (some replacement) = do
  ensure (not (replacement == role_id)) (app err_invalid_replacement_role)
  target ←
      map_err (not_found_or (app err_invalid_replacement_role) (app err_internal_server))
        (Roles.find_by_id tx_ctx replacement)
  or_err (app err_internal_server)
      (Users.update_role_by_role_id_unscoped tx_ctx role_id replacement)

abbrev pub replacement_fields : Option ℕ → List (String × Json)
replacement_fields none = []
replacement_fields (some i) = ("replacement_role_id", id_value i) ∷ []

unfoldable pub delete_role : Option AuditMeta → Option AuditUser → ℕ → Option ℕ → M (Unit {0})
delete_role meta actor role_id replacement = do
  role ←
      map_err (not_found_or (app err_role_not_found) (app err_internal_server))
        (Roles.find_by_id base_ctx role_id)
  ensure (not role.is_system) (app err_cannot_modify_system_role)
  used ← or_err (app err_internal_server) (Users.exists_by_role_id_unscoped base_ctx role_id)
  ensure (not (used && is_none replacement)) (app err_role_in_use)
  with_tx (do
    move_users role_id replacement
    or_err (app err_internal_server) (Roles.delete tx_ctx role_id)
    log_with_metadata tx_ctx meta action_delete_role actor none
        (some (role_fields role ++ replacement_fields replacement)))
