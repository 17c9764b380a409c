-- ===== src/Grpc/Method.antt =====
-- internal/handler/grpcserver/grpc.go: the methods of the three services, the public ones, and the
-- permission that each method asks for
use portal_backend.Prelude.{Bool, true, false, Option, none, some}
use portal_backend.Domain.{
  PermissionCode, profile_read_self, profile_update_self, profile_change_password, user_list,
  user_read_detail, user_create, user_update, user_delete, user_restore, user_role_update,
  role_list, role_create, role_delete, role_assign_permission, role_remove_permission,
  permission_list,
}
pub mod Table

pub data Method : Type 0 where
  register_method login_method verify_email_method resend_verification_method : Method
  set_password_method reset_password_method forgot_password_method : Method
  refresh_token_method logout_method logout_all_method : Method
  get_my_profile_method update_my_profile_method change_my_password_method : Method
  list_users_method create_user_method get_user_detail_method update_user_method : Method
  delete_user_method restore_user_method update_user_role_method : Method
  list_roles_method create_role_method delete_role_method : Method
  assign_permission_method remove_permission_method list_permissions_method : Method

-- buildGRPCPublicMethods
unfoldable pub is_public : Method → Bool
is_public register_method = true
is_public login_method = true
is_public verify_email_method = true
is_public resend_verification_method = true
is_public set_password_method = true
is_public reset_password_method = true
is_public forgot_password_method = true
is_public refresh_token_method = true
is_public _ = false

-- buildGRPCMethodPermissions
unfoldable pub permission_of : Method → Option PermissionCode
permission_of get_my_profile_method = some profile_read_self
permission_of update_my_profile_method = some profile_update_self
permission_of change_my_password_method = some profile_change_password
permission_of list_users_method = some user_list
permission_of create_user_method = some user_create
permission_of get_user_detail_method = some user_read_detail
permission_of update_user_method = some user_update
permission_of delete_user_method = some user_delete
permission_of restore_user_method = some user_restore
permission_of update_user_role_method = some user_role_update
permission_of list_roles_method = some role_list
permission_of create_role_method = some role_create
permission_of delete_role_method = some role_delete
permission_of assign_permission_method = some role_assign_permission
permission_of remove_permission_method = some role_remove_permission
permission_of list_permissions_method = some permission_list
permission_of _ = none
