-- ===== src/Service/Auth/Register.antt =====
-- Register of internal/service/auth.go
use portal_backend.Prelude.{ℕ, ◌+◌, ◌*◌, not, Option, none, some}
use portal_backend.Text.{Text, codes}
use portal_backend.Domain.{role_code_user, pending, email_verification, register as action_register}
use portal_backend.Errors.{
  app, err_email_exists, err_username_exists, err_internal_server, err_send_verification_email,
}
use portal_backend.Model.{User, notify_verify_email, nil_id}
use portal_backend.World.{M, base_ctx, tx_ctx, moment, ◌>>=◌, ◌>>◌, or_err, ensure, ask, with_tx}
use portal_backend.Repo.Roles
use portal_backend.Repo.Users
use portal_backend.Repo.Tokens
use portal_backend.Service.{
  normalize_identity, validate_normalized_email, validate_normalized_username,
}
use portal_backend.Service.Audit.{AuditMeta, map_user_to_audit_user, log}
use portal_backend.Service.Notification.{
  hour, new_email_notification_event, create_notification_outbox_event,
}
use portal_backend.Service.Token.{generate_hash_token}
use portal_backend.Service.UserService.{hash_password}
use portal_backend.Service.AdminService.{exists}
use portal_backend.Service.Auth.{link, new_token}

pub record RegisterInput : Type 0 where
  pub email : Text
  pub username : Text
  pub password : Text
  pub first_name : Text
  pub last_name : Text
  pub dob : ℕ

-- the statements of the transaction, for the user to insert and the new token
unfoldable pub register_tx : Option AuditMeta → User → Text × Text → M (Unit {0})
register_tx meta row token = do
  user ← Users.create tx_ctx row
  Tokens.revoke_by_user_and_type tx_ctx user.id email_verification
  now ← ask moment
  made ← Tokens.create tx_ctx (new_token user.id email_verification token.0 (now + 24 * hour))
  url ← link (codes "/verify-email?token=") token.1
  event ← new_email_notification_event notify_verify_email user url
  topic ← ask (λ w. w.env.notification_topic)
  or_err (app err_send_verification_email) (create_notification_outbox_event tx_ctx topic event)
  log tx_ctx meta action_register none (some (map_user_to_audit_user user))

unfoldable pub register : Option AuditMeta → RegisterInput → M (Unit {0})
register meta input = do
  email ← ask (λ w. normalize_identity w input.email)
  username ← ask (λ w. normalize_identity w input.username)
  validate_normalized_email email
  validate_normalized_username username
  by_email ← Users.find_by_email base_ctx email
  ensure (not (exists by_email)) (app err_email_exists)
  by_username ← Users.find_by_username base_ctx username
  ensure (not (exists by_username)) (app err_username_exists)
  hash ← or_err (app err_internal_server) (hash_password input.password)
  token ← generate_hash_token
  role ← or_err (app err_internal_server) (Roles.find_by_code base_ctx role_code_user)
  or_err (app err_internal_server) (
      with_tx (
        register_tx meta
          (record {
            id = nil_id;
            email = email;
            username = username;
            first_name = input.first_name;
            last_name = input.last_name;
            dob = some input.dob;
            password_hash = some hash;
            role_id = role.id;
            role = role;
            status = pending;
            email_verified_at = none;
            last_login_at = none;
            deleted_at = none;
            deleted_by = none;
          })
          token))
