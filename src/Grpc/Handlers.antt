-- ===== src/Grpc/Handlers.antt =====
-- internal/handler/grpcserver: the handlers of the three servers, as they are registered. A handler
-- turns a request into a call of a service, and its answer into a response.
pub mod Fields
pub mod AuthServer
pub mod UserServer
pub mod AdminServer
pub mod RoleServer
pub mod Paging
use portal_backend.Prelude.{
  ℤ, pos, negsuc, ℕ, zero, suc, Bool, true, false, not, ◌||◌, Option, none, some, List, [], ◌∷◌,
  ltb, if◌then◌else◌,
}
use portal_backend.Text.{Text, codes, is_empty}
use portal_backend.Domain.{
  UserStatus, status_none, email_verification, password_set, password_reset,
}
use portal_backend.Errors.{status, invalid_argument}
use portal_backend.World.{World, M, pure, ◌>>=◌, ◌>>◌, map_err, or_err, ensure, ask, or_none}
use portal_backend.Service.AdminService
use portal_backend.Service.UserService
use portal_backend.Service.RoleService
use portal_backend.Service.Auth.Register
use portal_backend.Service.Auth.Login
use portal_backend.Service.Auth.Verification
use portal_backend.Service.Auth.Passwords
use portal_backend.Service.Auth.RefreshTokens
use portal_backend.Service.Auth.Logout
use portal_backend.Access.Authenticator.{Principal}
use portal_backend.Grpc.Messages.{
  StatusPb, Request, Response, RegisterRequest, LoginRequest, SetPasswordRequest, ProfileRequest,
  ChangePasswordRequest, ListUsersRequest, CreateUserRequest, UpdateUserRequest, UpdateRoleRequest,
  CreateRoleRequest, DeleteRoleRequest, PermissionRequest, register, login, verify_email,
  resend_verification, forgot_password, refresh_token, set_password, reset_password, logout,
  logout_all, get_my_profile, list_roles, list_permissions, update_my_profile, change_my_password,
  list_users, create_user, get_user_detail, delete_user, restore_user, update_user,
  update_user_role, create_role, delete_role, assign_permission, remove_permission, message,
  login_response, refresh_response, user_response, users_response, role_response, roles_response,
  permissions_response,
}
use portal_backend.Grpc.Mapper.{
  map_error, user_status_from_pb, user_model_to_pb, list_users_result_to_pb, login_result_to_pb,
  refresh_result_to_pb, role_model_to_pb, roles_to_pb, permissions_to_pb,
}
use portal_backend.Grpc.Server.{Server, Call, get_audit, get_actor, get_session_id}
use portal_backend.Grpc.Handlers.AuthServer.{
  register_handler, verify_email_handler, resend_verification_handler, set_password_handler,
  reset_password_handler, forgot_password_handler, login_handler, refresh_token_handler,
  logout_handler, logout_all_handler,
}
use portal_backend.Grpc.Handlers.UserServer.{
  get_my_profile_handler, update_my_profile_handler, change_my_password_handler,
}
use portal_backend.Grpc.Handlers.AdminServer.{
  list_users_handler, create_user_handler, get_user_detail_handler, update_user_handler,
  delete_user_handler, restore_user_handler, update_user_role_handler,
}
use portal_backend.Grpc.Handlers.RoleServer.{
  list_roles_handler, create_role_handler, delete_role_handler, assign_permission_handler,
  remove_permission_handler, list_permissions_handler,
}

module _ (s : Server) (call : Call) where
  -- the handlers as they are registered
  unfoldable pub dispatch : Option Principal → Request → M Response
  dispatch p (register r) = register_handler s call (some r)
  dispatch p (login r) = login_handler s call (some r)
  dispatch p (verify_email t) = verify_email_handler s call (some t)
  dispatch p (resend_verification t) = resend_verification_handler s call (some t)
  dispatch p (forgot_password t) = forgot_password_handler s call (some t)
  dispatch p (refresh_token t) = refresh_token_handler s call (some t)
  dispatch p (set_password r) = set_password_handler s call (some r)
  dispatch p (reset_password r) = reset_password_handler s call (some r)
  dispatch p logout = logout_handler s call p
  dispatch p logout_all = logout_all_handler s call p
  dispatch p get_my_profile = get_my_profile_handler s call p
  dispatch p list_roles = list_roles_handler s call p
  dispatch p list_permissions = list_permissions_handler s call p
  dispatch p (update_my_profile r) = update_my_profile_handler s call p (some r)
  dispatch p (change_my_password r) = change_my_password_handler s call p (some r)
  dispatch p (list_users r) = list_users_handler s call p (some r)
  dispatch p (create_user r) = create_user_handler s call p (some r)
  dispatch p (get_user_detail i) = get_user_detail_handler s call p (some i)
  dispatch p (delete_user i) = delete_user_handler s call p (some i)
  dispatch p (restore_user i) = restore_user_handler s call p (some i)
  dispatch p (update_user r) = update_user_handler s call p (some r)
  dispatch p (update_user_role r) = update_user_role_handler s call p (some r)
  dispatch p (create_role r) = create_role_handler s call p (some r)
  dispatch p (delete_role r) = delete_role_handler s call p (some r)
  dispatch p (assign_permission r) = assign_permission_handler s call p (some r)
  dispatch p (remove_permission r) = remove_permission_handler s call p (some r)
