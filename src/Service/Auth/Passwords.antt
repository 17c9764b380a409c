-- ===== src/Service/Auth/Passwords.antt =====
-- ForgotPassword, SetPassword and ResetPassword of internal/service/auth.go. The transaction of
-- the latter two calls with `ctx`: its statements are committed one by one.
pub mod Effects
use portal_backend.Prelude.{
  ℕ, ◌+◌, ◌*◌, Bool, true, false, not, ◌&&◌, ◌||◌, Option, none, some, if◌then◌else◌,
}
use portal_backend.Text.{Text, codes, text_eq, is_empty, trim_space}
use portal_backend.Domain.{
  ActionName, TokenType, deleted, password_set, password_reset, token_type_eq,
  forgot_password as action_forgot_password, set_password as action_set_password,
  reset_password as action_reset_password,
}
use portal_backend.Errors.{
  Error, app, err_invalid_input, err_password_confirmation_mismatch, err_invalid_token,
  err_user_not_found, err_user_already_deleted, err_password_already_set, err_internal_server,
  err_send_reset_password_email, ErrorCode, code_password_already_set, code_invalid_input,
  code_send_reset_password_failed,
}
use portal_backend.Model.{User, UserToken, notify_reset_password}
use portal_backend.World.{
  World, M, base_ctx, tx_ctx, moment, pure, fail, ◌>>=◌, ◌>>◌, map_err, or_err, ensure, ask,
  or_none, with_tx,
}
use portal_backend.Repo.Users
use portal_backend.Repo.Users.{status_eq}
use portal_backend.Repo.Tokens
use portal_backend.Service.{normalize_identity}
use portal_backend.Service.Audit.{AuditMeta, map_user_to_audit_user, log}
use portal_backend.Service.Notification.{
  hour, new_email_notification_event, create_notification_outbox_event,
}
use portal_backend.Service.Token.{hash_token, generate_hash_token}
use portal_backend.Service.UserService.{hash_password, has_password}
use portal_backend.Service.Auth.{link, new_token}

-- the transaction of ForgotPassword
unfoldable pub forgot_tx : Option AuditMeta → User → Text × Text → M (Unit {0})
forgot_tx meta user token = do
  Tokens.revoke_by_user_and_type tx_ctx user.id password_reset
  now ← ask moment
  made ← Tokens.create tx_ctx (new_token user.id password_reset token.0 (now + 1 * hour))
  url ← link (codes "/auth/reset-password?token=") token.1
  event ← new_email_notification_event notify_reset_password user url
  topic ← ask (λ w. w.env.notification_topic)
  or_err (app err_send_reset_password_email) (create_notification_outbox_event tx_ctx topic event)
  log tx_ctx meta action_forgot_password (some (map_user_to_audit_user user))
      (some (map_user_to_audit_user user))

-- the errors that keep their identity: each of them is one value, known by its code
abbrev pub keep_send_error : ErrorCode → Error
keep_send_error code_send_reset_password_failed = app err_send_reset_password_email
keep_send_error _ = app err_internal_server

abbrev pub forgot_error : Error → Error
forgot_error (app e) = keep_send_error e.code
forgot_error _ = app err_internal_server

-- a user that is not there, or is deleted, gets no mail and no error
unfoldable pub forgot_for : Option AuditMeta → Option User → M (Unit {0})
forgot_for meta none = pure tt
forgot_for meta (some user) = if status_eq user.status deleted then pure tt else (do
  token ← generate_hash_token
  map_err forgot_error (with_tx (forgot_tx meta user token)))

unfoldable pub forgot_password : Option AuditMeta → Text → M (Unit {0})
forgot_password meta address = do
  email ← ask (λ w. normalize_identity w address)
  found ← or_err (app err_internal_server) (Users.find_by_email base_ctx email)
  forgot_for meta found

pub record SetPasswordInput : Type 0 where
  pub token : Text
  pub password : Text
  pub confirm_password : Text

-- the switch on the token's type
unfoldable pub store_password : TokenType → ℕ → Text → M (Unit {0})
store_password password_set i hash = do
  Users.update_password base_ctx i hash
  Users.mark_email_verified base_ctx i
store_password password_reset i hash = Users.update_password base_ctx i hash
store_password _ i hash = fail (app err_invalid_input)

abbrev pub password_action : TokenType → ActionName
password_action password_set = action_set_password
password_action _ = action_reset_password

unfoldable pub password_statements :
    Option AuditMeta → TokenType → User → UserToken → Text → M (Unit {0})
password_statements meta type user found hash = do
  store_password type user.id hash
  Tokens.mark_used base_ctx found.id
  log base_ctx meta (password_action type) (some (map_user_to_audit_user user))
      (some (map_user_to_audit_user user))

abbrev pub keep_password_error : ErrorCode → Error
keep_password_error code_password_already_set = app err_password_already_set
keep_password_error code_invalid_input = app err_invalid_input
keep_password_error _ = app err_internal_server

abbrev pub password_error : Error → Error
password_error (app e) = keep_password_error e.code
password_error _ = app err_internal_server

-- applyPasswordByToken; `none` is the nil input
unfoldable pub apply_password_by_token :
    Option AuditMeta → Option SetPasswordInput → TokenType → M (Unit {0})
apply_password_by_token meta maybe_input type = do
  input ← or_none (app err_invalid_input) maybe_input
  ensure
      (not (
        is_empty (trim_space input.token)
        || is_empty (trim_space input.password)
        || is_empty (trim_space input.confirm_password)))
      (app err_invalid_input)
  ensure (text_eq input.password input.confirm_password) (app err_password_confirmation_mismatch)
  token_hash ← ask (λ w. hash_token w input.token)
  found ← or_err (app err_invalid_token) (Tokens.find_valid_token base_ctx token_hash type)
  user ← or_err (app err_user_not_found) (Users.find_by_id base_ctx found.user_id)
  ensure (not (status_eq user.status deleted)) (app err_user_already_deleted)
  ensure (not (token_type_eq type password_set && has_password user.password_hash))
      (app err_password_already_set)
  hash ← or_err (app err_internal_server) (hash_password input.password)
  map_err password_error (with_tx (password_statements meta type user found hash))

unfoldable pub set_password : Option AuditMeta → Option SetPasswordInput → TokenType → M (Unit {0})
set_password = apply_password_by_token

unfoldable pub reset_password :
    Option AuditMeta → Option SetPasswordInput → TokenType → M (Unit {0})
reset_password = apply_password_by_token
