-- ===== src/Grpc/Mapper.antt =====
-- internal/handler/grpcserver/mapper: the errors of the services as statuses, and the rows as messages
use portal_backend.Prelude.{ℕ, Bool, true, false, Option, none, some, List, [], ◌∷◌, length}
use portal_backend.Text.{Text, codes}
use portal_backend.Domain.{UserStatus, active, pending, deleted}
use portal_backend.Errors.{
  ErrorGroup, auth_group, user_group, role_group, permission_group, email_group, password_group,
  token_group, validation_group, audit_group, internal_group, ErrorCode, code_role_not_found,
  code_role_code_exists, code_role_in_use, code_invalid_replacement_role,
  code_cannot_modify_system_role, code_permission_not_found, code_invalid_credentials,
  code_unauthorized, code_forbidden, code_account_not_verified, code_account_deleted,
  code_invalid_refresh_token, code_user_not_found, code_user_already_deleted, code_invalid_user_id,
  code_user_not_deleted, code_email_exists, code_username_exists, code_incorrect_password,
  code_password_mismatch, code_password_not_changed, code_password_already_set, code_invalid_input,
  code_invalid_action, code_invalid_time_range, code_invalid_token, AppError, GrpcCode,
  invalid_argument, unauthenticated, permission_denied, grpc_not_found, already_exists,
  failed_precondition, internal, Error, app, status,
}
use portal_backend.Model.{User, Role, Permission}
use portal_backend.Service.AdminService.{ListUsersResult}
use portal_backend.Service.Auth.Login.{LoginResult}
use portal_backend.Service.Auth.RefreshTokens.{RefreshResult}
use portal_backend.Grpc.Messages.{
  StatusPb, pb_unspecified, pb_pending_verification, pb_active, pb_deleted, RoleSummaryPb, UserPb,
  PermissionPb, RolePb, LoginResponse, RefreshResponse, ListUsersResponse,
}
pub mod Laws

unfoldable pub fallback_code_by_group : ErrorGroup → GrpcCode
fallback_code_by_group auth_group = unauthenticated
fallback_code_by_group token_group = unauthenticated
fallback_code_by_group validation_group = invalid_argument
fallback_code_by_group password_group = invalid_argument
fallback_code_by_group permission_group = permission_denied
fallback_code_by_group _ = internal

-- mapAppErrorCode, for a code and its error's group
unfoldable pub map_app_error_code : ErrorCode → ErrorGroup → GrpcCode
map_app_error_code code_invalid_input g = invalid_argument
map_app_error_code code_invalid_token g = invalid_argument
map_app_error_code code_invalid_user_id g = invalid_argument
map_app_error_code code_invalid_action g = invalid_argument
map_app_error_code code_invalid_time_range g = invalid_argument
map_app_error_code code_incorrect_password g = invalid_argument
map_app_error_code code_password_mismatch g = invalid_argument
map_app_error_code code_password_not_changed g = invalid_argument
map_app_error_code code_password_already_set g = invalid_argument
map_app_error_code code_invalid_replacement_role g = invalid_argument
map_app_error_code code_unauthorized g = unauthenticated
map_app_error_code code_invalid_credentials g = unauthenticated
map_app_error_code code_invalid_refresh_token g = unauthenticated
map_app_error_code code_forbidden g = permission_denied
map_app_error_code code_user_not_found g = grpc_not_found
map_app_error_code code_role_not_found g = grpc_not_found
map_app_error_code code_permission_not_found g = grpc_not_found
map_app_error_code code_email_exists g = already_exists
map_app_error_code code_username_exists g = already_exists
map_app_error_code code_role_code_exists g = already_exists
map_app_error_code code_account_not_verified g = failed_precondition
map_app_error_code code_account_deleted g = failed_precondition
map_app_error_code code_user_already_deleted g = failed_precondition
map_app_error_code code_user_not_deleted g = failed_precondition
map_app_error_code code_role_in_use g = failed_precondition
map_app_error_code code_cannot_modify_system_role g = failed_precondition
map_app_error_code _ g = fallback_code_by_group g

abbrev pub something_went_wrong : Text
something_went_wrong = codes "Something went wrong. Please try again later"

-- MapError of an error that is there
unfoldable pub map_error : Error → Error
unfolding map_app_error_code
map_error (status c s) = status c s
map_error (app e) = status (map_app_error_code e.code e.group) (codes e.message)
map_error _ = status internal something_went_wrong

unfoldable pub user_status_to_pb : UserStatus → StatusPb
user_status_to_pb pending = pb_pending_verification
user_status_to_pb active = pb_active
user_status_to_pb deleted = pb_deleted
user_status_to_pb _ = pb_unspecified

-- the second result is whether there is a first one
unfoldable pub user_status_from_pb : StatusPb → Option UserStatus
user_status_from_pb pb_pending_verification = some pending
user_status_from_pb pb_active = some active
user_status_from_pb pb_deleted = some deleted
user_status_from_pb _ = none

abbrev pub map_option : {A B : Type 0} → (A → B) → Option A → Option B
map_option f none = none
map_option f (some a) = some (f a)

-- how an id and a date are written: UUID.String and Time.Format
module _ (show_id show_date : ℕ → Text) where
  unfoldable pub role_summary_model_to_pb : Role → RoleSummaryPb
  role_summary_model_to_pb role = record {
    id = show_id role.id;
    code = role.code;
    name = role.name;
    is_system = role.is_system;
  }

  unfoldable pub user_model_to_pb : User → UserPb
  user_model_to_pb u = record {
    id = show_id u.id;
    email = u.email;
    username = u.username;
    first_name = u.first_name;
    last_name = u.last_name;
    role = role_summary_model_to_pb u.role;
    status = user_status_to_pb u.status;
    dob = map_option show_date u.dob;
    email_verified_at = u.email_verified_at;
    last_login_at = u.last_login_at;
    deleted_at = u.deleted_at;
    deleted_by = map_option show_id u.deleted_by;
  }

  unfoldable pub users_to_pb : List User → List UserPb
  users_to_pb [] = []
  users_to_pb (u ∷ us) = user_model_to_pb u ∷ users_to_pb us

  unfoldable pub list_users_result_to_pb : ListUsersResult → ListUsersResponse
  list_users_result_to_pb r = record {
    items = users_to_pb r.users;
    page = r.page;
    page_size = r.page_size;
    total = r.total;
  }

  unfoldable pub login_result_to_pb : LoginResult → LoginResponse
  login_result_to_pb r = record {
    access_token = r.access_token;
    refresh_token = r.refresh_token;
    token_type = codes "Bearer";
    expires_in = r.expires_in;
    user = some (user_model_to_pb r.user);
  }

unfoldable pub refresh_result_to_pb : RefreshResult → RefreshResponse
refresh_result_to_pb r = record {
  access_token = r.access_token;
  refresh_token = r.refresh_token;
  token_type = codes "Bearer";
  expires_in = r.expires_in;
}

module _ (show_id : ℕ → Text) where
  unfoldable pub permission_model_to_pb : Permission → PermissionPb
  permission_model_to_pb p = record { id = show_id p.id; code = p.code; name = p.name }

  unfoldable pub permissions_to_pb : List Permission → List PermissionPb
  permissions_to_pb [] = []
  permissions_to_pb (p ∷ ps) = permission_model_to_pb p ∷ permissions_to_pb ps

  -- a role with the permissions that are loaded with it
  unfoldable pub role_model_to_pb : Role → List Permission → RolePb
  role_model_to_pb role perms = record {
    id = show_id role.id;
    code = role.code;
    name = role.name;
    is_system = role.is_system;
    permissions = permissions_to_pb perms;
  }

  unfoldable pub roles_to_pb : List (Role × List Permission) → List RolePb
  roles_to_pb [] = []
  roles_to_pb ((r, ps) ∷ rs) = role_model_to_pb r ps ∷ roles_to_pb rs
