-- ===== src/Grpc/Handlers/AdminServer.antt =====
-- internal/handler/grpcserver/admin_server.go: the users
use portal_backend.Prelude.{Option, some}
use portal_backend.Text.{Text}
use portal_backend.World.{M, ◌>>=◌, map_err, ask}
use portal_backend.Service.AdminService
use portal_backend.Service.UserService
use portal_backend.Access.Authenticator.{Principal}
use portal_backend.Grpc.Messages.{
  Response, ListUsersRequest, CreateUserRequest, UpdateUserRequest, UpdateRoleRequest,
  user_response, users_response,
}
use portal_backend.Grpc.Mapper.{map_error, user_model_to_pb, list_users_result_to_pb}
use portal_backend.Grpc.Server.{Server, Call, get_audit, get_actor}
use portal_backend.Grpc.Handlers.Fields.{
  required, parse_dob, parse_optional_dob, parse_user_id, paging, status_filter, or_no_text,
  profile_input,
}

module _ (s : Server) (call : Call) where
  unfoldable pub list_users_handler : Option Principal → Option ListUsersRequest → M Response
  list_users_handler p r = do
    req ← required r
    actor ← get_actor p
    pages ← paging req
    dob ← parse_optional_dob s req.dob
    wanted ← status_filter req.status
    result ← map_err map_error (
        AdminService.list_users (some (get_audit s call)) (some actor) (record {
          page = pages.0;
          page_size = pages.1;
          username = or_no_text req.username;
          email = or_no_text req.email;
          full_name = or_no_text req.full_name;
          dob = dob;
          role_code = req.role_code;
          status = wanted;
          include_deleted = req.include_deleted;
        }))
    ask (λ w. users_response (list_users_result_to_pb w.env.uuid_text s.format_date result))

  unfoldable pub create_user_handler : Option Principal → Option CreateUserRequest → M Response
  create_user_handler p r = do
    req ← required r
    actor ← get_actor p
    dob ← parse_dob s req.dob
    user ← map_err map_error (
        AdminService.create_user (some (get_audit s call)) (some actor) (record {
          email = req.email;
          username = req.username;
          first_name = req.first_name;
          last_name = req.last_name;
          dob = some dob;
          role_code = req.role_code;
        }))
    ask (λ w. user_response (user_model_to_pb w.env.uuid_text s.format_date user))

  unfoldable pub get_user_detail_handler : Option Principal → Option Text → M Response
  get_user_detail_handler p r = do
    id ← required r
    actor ← get_actor p
    i ← parse_user_id s id
    user ← map_err map_error (UserService.get_profile (some (get_audit s call)) (some actor) i)
    ask (λ w. user_response (user_model_to_pb w.env.uuid_text s.format_date user))

  unfoldable pub update_user_handler : Option Principal → Option UpdateUserRequest → M Response
  update_user_handler p r = do
    req ← required r
    actor ← get_actor p
    i ← parse_user_id s req.user_id
    input ← profile_input s req.profile
    user ←
        map_err map_error
          (UserService.update_profile (some (get_audit s call)) (some actor) i input)
    ask (λ w. user_response (user_model_to_pb w.env.uuid_text s.format_date user))

  unfoldable pub delete_user_handler : Option Principal → Option Text → M Response
  delete_user_handler p r = do
    id ← required r
    actor ← get_actor p
    i ← parse_user_id s id
    user ← map_err map_error (AdminService.delete_user (some (get_audit s call)) (some actor) i)
    ask (λ w. user_response (user_model_to_pb w.env.uuid_text s.format_date user))

  unfoldable pub restore_user_handler : Option Principal → Option Text → M Response
  restore_user_handler p r = do
    id ← required r
    actor ← get_actor p
    i ← parse_user_id s id
    user ← map_err map_error (AdminService.restore_user (some (get_audit s call)) (some actor) i)
    ask (λ w. user_response (user_model_to_pb w.env.uuid_text s.format_date user))

  unfoldable pub update_user_role_handler : Option Principal → Option UpdateRoleRequest → M Response
  update_user_role_handler p r = do
    req ← required r
    actor ← get_actor p
    i ← parse_user_id s req.user_id
    user ←
        map_err map_error
          (AdminService.update_role (some (get_audit s call)) (some actor) i req.role_code)
    ask (λ w. user_response (user_model_to_pb w.env.uuid_text s.format_date user))
