-- ===== src/Grpc/Handlers/AuthServer.antt =====
-- internal/handler/grpcserver/auth_server.go
use portal_backend.Prelude.{Option, some}
use portal_backend.Text.{Text, codes}
use portal_backend.Domain.{email_verification, password_set, password_reset}
use portal_backend.World.{M, pure, ◌>>=◌, ◌>>◌, map_err, ask}
use portal_backend.Service.Auth.Register
use portal_backend.Service.Auth.Login
use portal_backend.Service.Auth.Verification
use portal_backend.Service.Auth.Passwords
use portal_backend.Service.Auth.RefreshTokens
use portal_backend.Service.Auth.Logout
use portal_backend.Access.Authenticator.{Principal}
use portal_backend.Grpc.Messages.{
  Response, RegisterRequest, LoginRequest, SetPasswordRequest, message, login_response,
  refresh_response,
}
use portal_backend.Grpc.Mapper.{map_error, login_result_to_pb, refresh_result_to_pb}
use portal_backend.Grpc.Server.{Server, Call, get_audit, get_actor, get_session_id}
use portal_backend.Grpc.Handlers.Fields.{required, parse_dob}

module _ (s : Server) (call : Call) where
  unfoldable pub register_handler : Option RegisterRequest → M Response
  register_handler r = do
    req ← required r
    dob ← parse_dob s req.dob
    map_err map_error (
        Register.register (some (get_audit s call)) (record {
          email = req.email;
          username = req.username;
          password = req.password;
          first_name = req.first_name;
          last_name = req.last_name;
          dob = dob;
        }))
    pure (message (codes "Registration successful"))

  unfoldable pub verify_email_handler : Option Text → M Response
  verify_email_handler r = do
    token ← required r
    map_err map_error (Verification.verify_email (some (get_audit s call)) token email_verification)
    pure (message (codes "Email verification successful"))

  unfoldable pub resend_verification_handler : Option Text → M Response
  resend_verification_handler r = do
    email ← required r
    map_err map_error
        (Verification.resend_verification (some (get_audit s call)) email email_verification)
    pure (message (codes "Resend verification successfully"))

  abbrev pub password_input : SetPasswordRequest → Passwords.SetPasswordInput
  password_input req = record {
    token = req.token;
    password = req.password;
    confirm_password = req.confirm_password;
  }

  unfoldable pub set_password_handler : Option SetPasswordRequest → M Response
  set_password_handler r = do
    req ← required r
    map_err map_error
        (Passwords.set_password (some (get_audit s call)) (some (password_input req)) password_set)
    pure (message (codes "Email verification and password set successful"))

  unfoldable pub reset_password_handler : Option SetPasswordRequest → M Response
  reset_password_handler r = do
    req ← required r
    map_err map_error (
        Passwords.reset_password (some (get_audit s call)) (some (password_input req))
          password_reset)
    pure (message (codes "Password reset successful"))

  unfoldable pub forgot_password_handler : Option Text → M Response
  forgot_password_handler r = do
    email ← required r
    map_err map_error (Passwords.forgot_password (some (get_audit s call)) email)
    pure (message (codes "If the account exists, a password reset email has been sent"))

  unfoldable pub login_handler : Option LoginRequest → M Response
  login_handler r = do
    req ← required r
    result ← map_err map_error (Login.log_in (some (get_audit s call)) req.identifier req.password)
    ask (λ w. login_response (login_result_to_pb w.env.uuid_text s.format_date result))

  unfoldable pub refresh_token_handler : Option Text → M Response
  refresh_token_handler r = do
    token ← required r
    result ← map_err map_error (RefreshTokens.refresh (some (get_audit s call)) token)
    pure (refresh_response (refresh_result_to_pb result))

  unfoldable pub logout_handler : Option Principal → M Response
  logout_handler p = do
    actor ← get_actor p
    session ← get_session_id p
    map_err map_error (Logout.logout (some (get_audit s call)) (some actor) session)
    pure (message (codes "Logout successful"))

  unfoldable pub logout_all_handler : Option Principal → M Response
  logout_all_handler p = do
    actor ← get_actor p
    map_err map_error (Logout.logout_all (some (get_audit s call)) (some actor))
    pure (message (codes "All devices has been logged out"))
