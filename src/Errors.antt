-- ===== src/Errors.antt =====
-- internal/service/errors.go: the groups, the codes and the error values.
use Prim.Native.String.{String}
use portal_backend.Text.{Text}

pub data ErrorGroup : Type 0 where
  auth_group user_group role_group permission_group email_group password_group : ErrorGroup
  token_group validation_group audit_group internal_group : ErrorGroup

pub data ErrorCode : Type 0 where
  code_role_not_found code_role_code_exists code_role_in_use : ErrorCode
  code_invalid_replacement_role code_cannot_modify_system_role code_permission_not_found : ErrorCode
  code_invalid_credentials code_unauthorized code_forbidden code_account_not_verified : ErrorCode
  code_account_deleted code_user_inactive code_invalid_refresh_token : ErrorCode
  code_user_not_found code_user_already_deleted code_invalid_user_id : ErrorCode
  code_user_not_deleted code_email_exists code_username_exists code_email_blacklisted : ErrorCode
  code_incorrect_password code_password_mismatch code_password_not_changed : ErrorCode
  code_password_already_set code_invalid_input code_invalid_action : ErrorCode
  code_invalid_time_range code_internal_error code_invalid_token code_audit_log_failed : ErrorCode
  code_send_verification_email_failed code_send_reset_password_failed : ErrorCode
  code_send_set_password_failed : ErrorCode

pub record AppError : Type 0 where
  pub group : ErrorGroup
  pub code : ErrorCode
  pub message : String

abbrev pub new_app_error : ErrorGroup → ErrorCode → String → AppError
new_app_error g c m = record { group = g; code = c; message = m }

-- google.golang.org/grpc/codes: those that the program answers with
pub data GrpcCode : Type 0 where
  invalid_argument unauthenticated permission_denied grpc_not_found already_exists : GrpcCode
  failed_precondition internal unavailable resource_exhausted : GrpcCode

-- What a call returns as its `error`: an AppError, repository.ErrNotFound, an error of the driver
-- or of another package, an error made by fmt.Errorf or errors.New, or a status of gRPC.
pub data Error : Type 0 where
  app : AppError → Error
  not_found : Error
  driver : Error
  plain : String → Error
  status : GrpcCode → Text → Error

abbrev pub err_role_not_found : AppError
err_role_not_found = new_app_error role_group code_role_not_found "Role not found"

abbrev pub err_role_code_exists : AppError
err_role_code_exists = new_app_error role_group code_role_code_exists "Role code already exists"

abbrev pub err_role_in_use : AppError
err_role_in_use = new_app_error role_group code_role_in_use "Role is assigned to users"

abbrev pub err_invalid_replacement_role : AppError
err_invalid_replacement_role =
    new_app_error role_group code_invalid_replacement_role "Invalid replacement role"

abbrev pub err_cannot_modify_system_role : AppError
err_cannot_modify_system_role =
    new_app_error role_group code_cannot_modify_system_role "System role cannot be modified"

abbrev pub err_permission_not_found : AppError
err_permission_not_found =
    new_app_error permission_group code_permission_not_found "Permission not found"

abbrev pub err_invalid_credentials : AppError
err_invalid_credentials =
    new_app_error auth_group code_invalid_credentials "Email/username or password is incorrect"

abbrev pub err_unauthorized : AppError
err_unauthorized = new_app_error auth_group code_unauthorized "You are not authenticated"

abbrev pub err_forbidden : AppError
err_forbidden =
    new_app_error auth_group code_forbidden "You do not have permission to perform this action"

abbrev pub err_account_not_verified : AppError
err_account_not_verified =
    new_app_error auth_group code_account_not_verified
      "Your account is not verified. Please check your email"

abbrev pub err_account_deleted : AppError
err_account_deleted = new_app_error auth_group code_account_deleted "This account has been deleted"

abbrev pub err_user_inactive : AppError
err_user_inactive = new_app_error auth_group code_user_inactive "Your account is inactive"

abbrev pub err_invalid_refresh_token : AppError
err_invalid_refresh_token =
    new_app_error token_group code_invalid_refresh_token "Your session is expired"

abbrev pub err_user_not_found : AppError
err_user_not_found = new_app_error user_group code_user_not_found "User not found"

abbrev pub err_user_already_deleted : AppError
err_user_already_deleted =
    new_app_error user_group code_user_already_deleted "User is already deleted"

abbrev pub err_invalid_user_id : AppError
err_invalid_user_id = new_app_error user_group code_invalid_user_id "Invalid user ID"

abbrev pub err_user_not_deleted : AppError
err_user_not_deleted = new_app_error user_group code_user_not_deleted "User is not deleted"

abbrev pub err_email_exists : AppError
err_email_exists = new_app_error email_group code_email_exists "Email is already in use"

abbrev pub err_username_exists : AppError
err_username_exists = new_app_error user_group code_username_exists "Username is already taken"

abbrev pub err_email_blacklisted : AppError
err_email_blacklisted = new_app_error email_group code_email_blacklisted "This email cannot be used"

abbrev pub err_incorrect_password : AppError
err_incorrect_password =
    new_app_error password_group code_incorrect_password "Current password is incorrect"

abbrev pub err_password_confirmation_mismatch : AppError
err_password_confirmation_mismatch =
    new_app_error password_group code_password_mismatch "Password confirmation does not match"

abbrev pub err_new_password_must_be_different : AppError
err_new_password_must_be_different =
    new_app_error password_group code_password_not_changed
      "New password must be different from the current one"

abbrev pub err_password_already_set : AppError
err_password_already_set =
    new_app_error password_group code_password_already_set "Password has already been set"

abbrev pub err_invalid_input : AppError
err_invalid_input = new_app_error validation_group code_invalid_input "Invalid input data"

abbrev pub err_invalid_action : AppError
err_invalid_action = new_app_error validation_group code_invalid_action "Invalid action"

abbrev pub err_invalid_time_range : AppError
err_invalid_time_range = new_app_error validation_group code_invalid_time_range "Invalid time range"

abbrev pub err_internal_server : AppError
err_internal_server =
    new_app_error internal_group code_internal_error "Something went wrong. Please try again later"

abbrev pub err_invalid_token : AppError
err_invalid_token = new_app_error token_group code_invalid_token "Invalid or expired token"

abbrev pub err_audit_logger : AppError
err_audit_logger = new_app_error audit_group code_audit_log_failed "Failed to record activity"

abbrev pub err_send_verification_email : AppError
err_send_verification_email =
    new_app_error email_group code_send_verification_email_failed
      "Failed to send verification email"

abbrev pub err_send_reset_password_email : AppError
err_send_reset_password_email =
    new_app_error email_group code_send_reset_password_failed "Failed to send reset password email"

abbrev pub err_send_set_password_email : AppError
err_send_set_password_email =
    new_app_error email_group code_send_set_password_failed "Failed to send set password email"
