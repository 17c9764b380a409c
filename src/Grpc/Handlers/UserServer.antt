-- ===== src/Grpc/Handlers/UserServer.antt =====
-- internal/handler/grpcserver/user_server.go
use portal_backend.Prelude.{Option, some}
use portal_backend.Text.{codes}
use portal_backend.World.{M, pure, ◌>>=◌, ◌>>◌, map_err, ask}
use portal_backend.Service.UserService
use portal_backend.Access.Authenticator.{Principal}
use portal_backend.Grpc.Messages.{
  Response, ProfileRequest, ChangePasswordRequest, message, user_response,
}
use portal_backend.Grpc.Mapper.{map_error, user_model_to_pb}
use portal_backend.Grpc.Server.{Server, Call, get_audit, get_actor}
use portal_backend.Grpc.Handlers.Fields.{required, profile_input}

module _ (s : Server) (call : Call) where
  unfoldable pub get_my_profile_handler : Option Principal → M Response
  get_my_profile_handler p = do
    actor ← get_actor p
    user ←
        map_err map_error (UserService.get_profile (some (get_audit s call)) (some actor) actor.id)
    ask (λ w. user_response (user_model_to_pb w.env.uuid_text s.format_date user))

  unfoldable pub update_my_profile_handler : Option Principal → Option ProfileRequest → M Response
  update_my_profile_handler p r = do
    req ← required r
    actor ← get_actor p
    input ← profile_input s req
    user ←
        map_err map_error
          (UserService.update_profile (some (get_audit s call)) (some actor) actor.id input)
    ask (λ w. user_response (user_model_to_pb w.env.uuid_text s.format_date user))

  unfoldable pub change_my_password_handler :
      Option Principal → Option ChangePasswordRequest → M Response
  change_my_password_handler p r = do
    req ← required r
    actor ← get_actor p
    map_err map_error (
        UserService.change_password (some (get_audit s call)) (some actor) req.current_password
          req.new_password req.confirm_new_password)
    pure (message (codes "password changed successfully"))
