-- ===== src/Grpc/Messages.antt =====
-- gen/go: the messages of the calls as their handlers read and write them. A field that is optional
-- in the protocol is an Option; a time stamp is a number. The time stamps of creation and change
-- are left out, as in the rows.
use portal_backend.Prelude.{ℕ, ℤ, Bool, List, Option}
use portal_backend.Text.{Text}
use portal_backend.Grpc.Method.{
  Method, register_method, login_method, verify_email_method, resend_verification_method,
  set_password_method, reset_password_method, forgot_password_method, refresh_token_method,
  logout_method, logout_all_method, get_my_profile_method, update_my_profile_method,
  change_my_password_method, list_users_method, create_user_method, get_user_detail_method,
  update_user_method, delete_user_method, restore_user_method, update_user_role_method,
  list_roles_method, create_role_method, delete_role_method, assign_permission_method,
  remove_permission_method, list_permissions_method,
}

-- commonv1.UserStatus
pub data StatusPb : Type 0 where
  pb_unspecified pb_pending_verification pb_active pb_deleted : StatusPb
  pb_other : ℕ → StatusPb

pub record RegisterRequest : Type 0 where
  pub email : Text
  pub username : Text
  pub password : Text
  pub first_name : Text
  pub last_name : Text
  pub dob : Text

pub record LoginRequest : Type 0 where
  pub identifier : Text
  pub password : Text

pub record SetPasswordRequest : Type 0 where
  pub token : Text
  pub password : Text
  pub confirm_password : Text

pub record ProfileRequest : Type 0 where
  pub first_name : Option Text
  pub last_name : Option Text
  pub username : Option Text
  pub dob : Option Text

pub record ChangePasswordRequest : Type 0 where
  pub current_password : Text
  pub new_password : Text
  pub confirm_new_password : Text

pub record ListUsersRequest : Type 0 where
  pub page : ℤ
  pub page_size : ℤ
  pub username : Option Text
  pub email : Option Text
  pub full_name : Option Text
  pub dob : Option Text
  pub role_code : Option Text
  pub status : Option StatusPb
  pub include_deleted : Bool

pub record CreateUserRequest : Type 0 where
  pub email : Text
  pub username : Text
  pub first_name : Text
  pub last_name : Text
  pub dob : Text
  pub role_code : Text

pub record UpdateUserRequest : Type 0 where
  pub user_id : Text
  pub profile : ProfileRequest

pub record UpdateRoleRequest : Type 0 where
  pub user_id : Text
  pub role_code : Text

pub record CreateRoleRequest : Type 0 where
  pub code : Text
  pub name : Text

pub record DeleteRoleRequest : Type 0 where
  pub role_id : Text
  pub replacement_role_id : Option Text

pub record PermissionRequest : Type 0 where
  pub role_id : Text
  pub permission_id : Text

-- A call's request, with one constructor for each method.
pub data Request : Type 0 where
  register : RegisterRequest → Request
  login : LoginRequest → Request
  verify_email resend_verification forgot_password refresh_token : Text → Request
  set_password reset_password : SetPasswordRequest → Request
  logout logout_all get_my_profile list_roles list_permissions : Request
  update_my_profile : ProfileRequest → Request
  change_my_password : ChangePasswordRequest → Request
  list_users : ListUsersRequest → Request
  create_user : CreateUserRequest → Request
  get_user_detail delete_user restore_user : Text → Request
  update_user : UpdateUserRequest → Request
  update_user_role : UpdateRoleRequest → Request
  create_role : CreateRoleRequest → Request
  delete_role : DeleteRoleRequest → Request
  assign_permission remove_permission : PermissionRequest → Request

-- info.FullMethod
unfoldable pub method_of : Request → Method
method_of (register r) = register_method
method_of (login r) = login_method
method_of (verify_email t) = verify_email_method
method_of (resend_verification t) = resend_verification_method
method_of (forgot_password t) = forgot_password_method
method_of (refresh_token t) = refresh_token_method
method_of (set_password r) = set_password_method
method_of (reset_password r) = reset_password_method
method_of logout = logout_method
method_of logout_all = logout_all_method
method_of get_my_profile = get_my_profile_method
method_of list_roles = list_roles_method
method_of list_permissions = list_permissions_method
method_of (update_my_profile r) = update_my_profile_method
method_of (change_my_password r) = change_my_password_method
method_of (list_users r) = list_users_method
method_of (create_user r) = create_user_method
method_of (get_user_detail i) = get_user_detail_method
method_of (delete_user i) = delete_user_method
method_of (restore_user i) = restore_user_method
method_of (update_user r) = update_user_method
method_of (update_user_role r) = update_user_role_method
method_of (create_role r) = create_role_method
method_of (delete_role r) = delete_role_method
method_of (assign_permission r) = assign_permission_method
method_of (remove_permission r) = remove_permission_method

pub record RoleSummaryPb : Type 0 where
  pub id : Text
  pub code : Text
  pub name : Text
  pub is_system : Bool

pub record UserPb : Type 0 where
  pub id : Text
  pub email : Text
  pub username : Text
  pub first_name : Text
  pub last_name : Text
  pub role : RoleSummaryPb
  pub status : StatusPb
  pub dob : Option Text
  pub email_verified_at : Option ℕ
  pub last_login_at : Option ℕ
  pub deleted_at : Option ℕ
  pub deleted_by : Option Text

pub record PermissionPb : Type 0 where
  pub id : Text
  pub code : Text
  pub name : Text

pub record RolePb : Type 0 where
  pub id : Text
  pub code : Text
  pub name : Text
  pub is_system : Bool
  pub permissions : List PermissionPb

pub record LoginResponse : Type 0 where
  pub access_token : Text
  pub refresh_token : Text
  pub token_type : Text
  pub expires_in : ℕ
  pub user : Option UserPb

pub record RefreshResponse : Type 0 where
  pub access_token : Text
  pub refresh_token : Text
  pub token_type : Text
  pub expires_in : ℕ

pub record ListUsersResponse : Type 0 where
  pub items : List UserPb
  pub page : ℕ
  pub page_size : ℕ
  pub total : ℕ

pub data Response : Type 0 where
  message : Text → Response
  login_response : LoginResponse → Response
  refresh_response : RefreshResponse → Response
  user_response : UserPb → Response
  users_response : ListUsersResponse → Response
  role_response : RolePb → Response
  roles_response : List RolePb → Response
  permissions_response : List PermissionPb → Response
