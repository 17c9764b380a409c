-- ===== src/Domain.antt =====
-- The vocabulary of the program: internal/domain, the error values of internal/service/errors.go
-- and of internal/repository/errors.go.
use Prim.Native.String.{String}
use portal_backend.Prelude.{Bool, true, false, List, [], ◌∷◌}
use portal_backend.Text.{Text, codes, text_eq}

pub data UserStatus : Type 0 where
  status_none active pending deleted : UserStatus
  other_status : Text → UserStatus

unfoldable pub status_is_valid : UserStatus → Bool
status_is_valid active = true
status_is_valid deleted = true
status_is_valid pending = true
status_is_valid _ = false

pub data TokenType : Type 0 where
  email_verification password_reset password_set : TokenType
  other_type : Text → TokenType

unfoldable pub token_type_is_valid : TokenType → Bool
token_type_is_valid password_reset = true
token_type_is_valid email_verification = true
token_type_is_valid password_set = true
token_type_is_valid _ = false

abbrev pub token_type_eq : TokenType → TokenType → Bool
token_type_eq email_verification email_verification = true
token_type_eq password_reset password_reset = true
token_type_eq password_set password_set = true
token_type_eq (other_type s) (other_type t) = text_eq s t
token_type_eq _ _ = false

pub data ActionName : Type 0 where
  register login verify_email resend_verification set_password reset_password : ActionName
  forgot_password logout logout_all refresh_token_reuse_detected update_profile : ActionName
  change_password admin_search_user admin_view_user admin_create_user admin_update_user : ActionName
  admin_delete_user admin_restore_user admin_assign_role create_role update_role : ActionName
  delete_role list_roles assign_permission remove_permission list_permissions : ActionName

abbrev pub action_text : ActionName → Text
action_text register = codes "REGISTER"
action_text login = codes "LOGIN"
action_text verify_email = codes "VERIFY_EMAIL"
action_text resend_verification = codes "RESEND_VERIFICATION"
action_text set_password = codes "SET_PASSWORD"
action_text reset_password = codes "RESET_PASSWORD"
action_text forgot_password = codes "FORGOT_PASSWORD"
action_text logout = codes "LOGOUT"
action_text logout_all = codes "LOGOUT_ALL"
action_text refresh_token_reuse_detected = codes "REFRESH_TOKEN_REUSE_DETECTED"
action_text update_profile = codes "UPDATE_PROFILE"
action_text change_password = codes "CHANGE_PASSWORD"
action_text admin_search_user = codes "ADMIN_SEARCH_USER"
action_text admin_view_user = codes "ADMIN_VIEW_USER"
action_text admin_create_user = codes "ADMIN_CREATE_USER"
action_text admin_update_user = codes "ADMIN_UPDATE_USER"
action_text admin_delete_user = codes "ADMIN_DELETE_USER"
action_text admin_restore_user = codes "ADMIN_RESTORE_USER"
action_text admin_assign_role = codes "ADMIN_ASSIGN_ROLE"
action_text create_role = codes "ADMIN_CREATE_ROLE"
action_text update_role = codes "ADMIN_UPDATE_ROLE"
action_text delete_role = codes "ADMIN_DELETE_ROLE"
action_text list_roles = codes "ADMIN_LIST_ROLES"
action_text assign_permission = codes "ADMIN_ASSIGN_PERMISSION_TO_ROLE"
action_text remove_permission = codes "ADMIN_REMOVE_PERMISSION_FROM_ROLE"
action_text list_permissions = codes "ADMIN_LIST_PERMISSIONS"

unfoldable pub action_is_valid : ActionName → Bool
action_is_valid register = true
action_is_valid verify_email = true
action_is_valid login = true
action_is_valid logout = true
action_is_valid logout_all = true
action_is_valid resend_verification = true
action_is_valid set_password = true
action_is_valid reset_password = true
action_is_valid forgot_password = true
action_is_valid refresh_token_reuse_detected = true
action_is_valid update_profile = true
action_is_valid change_password = true
action_is_valid admin_search_user = true
action_is_valid admin_view_user = true
action_is_valid admin_create_user = true
action_is_valid admin_update_user = true
action_is_valid admin_delete_user = true
action_is_valid admin_restore_user = true
action_is_valid admin_assign_role = true
action_is_valid _ = false

abbrev pub RoleCode : Type 0
RoleCode = Text

abbrev pub role_code_user : RoleCode
role_code_user = codes "ROLE_CODE_USER"

abbrev pub role_code_admin : RoleCode
role_code_admin = codes "ROLE_CODE_ADMIN"

pub data PermissionCode : Type 0 where
  profile_read_self profile_update_self profile_change_password : PermissionCode
  user_list user_read_detail user_create user_update user_delete user_restore : PermissionCode
  user_role_update role_list role_create role_delete role_assign_permission : PermissionCode
  role_remove_permission permission_list : PermissionCode

abbrev pub permission_text : PermissionCode → String
permission_text profile_read_self = "profile:read_self"
permission_text profile_update_self = "profile:update_self"
permission_text profile_change_password = "profile:change_password"
permission_text user_list = "users:list"
permission_text user_read_detail = "users:read_detail"
permission_text user_create = "users:create"
permission_text user_update = "users:update"
permission_text user_delete = "users:delete"
permission_text user_restore = "users:restore"
permission_text user_role_update = "users:update_role"
permission_text role_list = "roles:list"
permission_text role_create = "roles:create"
permission_text role_delete = "roles:delete"
permission_text role_assign_permission = "roles:assign_permission"
permission_text role_remove_permission = "roles:remove_permission"
permission_text permission_list = "permissions:list"

abbrev pub all_permissions : List PermissionCode
all_permissions =
    user_list ∷ user_read_detail ∷ user_create ∷ user_update ∷ user_delete ∷ user_restore
    ∷ user_role_update ∷ role_list ∷ role_create ∷ role_delete ∷ role_assign_permission
    ∷ role_remove_permission ∷ permission_list ∷ profile_read_self ∷ profile_update_self
    ∷ profile_change_password ∷ []

abbrev pub user_permissions : List PermissionCode
user_permissions = profile_read_self ∷ profile_update_self ∷ profile_change_password ∷ []
