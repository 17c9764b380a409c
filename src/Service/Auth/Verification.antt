-- ===== src/Service/Auth/Verification.antt =====
-- VerifyEmail and ResendVerification of internal/service/auth.go. The transaction of VerifyEmail
-- calls with `ctx`: its statements are committed one by one.
pub mod Effects
use portal_backend.Prelude.{ℕ, ◌+◌, ◌*◌, Bool, true, false, not, Option, some, if◌then◌else◌}
use portal_backend.Text.{Text, codes}
use portal_backend.Domain.{
  UserStatus, TokenType, active, deleted, email_verification, verify_email as action_verify_email,
  resend_verification as action_resend_verification,
}
use portal_backend.Errors.{
  app, err_invalid_token, err_user_not_found, err_user_already_deleted, err_internal_server,
  err_send_verification_email,
}
use portal_backend.Model.{User, UserToken, notify_verify_email}
use portal_backend.World.{
  World, M, base_ctx, tx_ctx, moment, pure, ◌>>=◌, ◌>>◌, or_err, ensure, ask, deref, with_tx,
}
use portal_backend.Repo.Users
use portal_backend.Repo.Users.{status_eq}
use portal_backend.Repo.Tokens
use portal_backend.Service.{normalize_identity}
use portal_backend.Service.Audit.{AuditMeta, map_user_to_audit_user, log}
use portal_backend.Service.Notification.{
  hour, new_email_notification_event, create_notification_outbox_event,
}
use portal_backend.Service.Token.{hash_token, generate_hash_token}
use portal_backend.Service.Auth.{link, new_token}

-- the statements of VerifyEmail's transaction, each on its own
unfoldable pub verify_statements : Option AuditMeta → User → UserToken → M (Unit {0})
verify_statements meta user found = do
  Users.mark_email_verified base_ctx user.id
  Tokens.mark_used base_ctx found.id
  log base_ctx meta action_verify_email (some (map_user_to_audit_user user))
      (some (map_user_to_audit_user user))

unfoldable pub verify_email : Option AuditMeta → Text → TokenType → M (Unit {0})
verify_email meta raw type = do
  hash ← ask (λ w. hash_token w raw)
  found ← or_err (app err_invalid_token) (Tokens.find_valid_token base_ctx hash type)
  user ← or_err (app err_user_not_found) (Users.find_by_id base_ctx found.user_id)
  ensure (not (status_eq user.status deleted)) (app err_user_already_deleted)
  if status_eq user.status active
      then pure tt
      else or_err (app err_internal_server) (with_tx (verify_statements meta user found))

-- The user is followed inside the transaction, where it may be nil.
unfoldable pub resend_tx : Option AuditMeta → Option User → TokenType → Text × Text → M (Unit {0})
resend_tx meta found type token = do
  user ← deref found
  or_err (app err_internal_server) (Tokens.revoke_by_user_and_type tx_ctx user.id type)
  now ← ask moment
  made ← Tokens.create tx_ctx (new_token user.id email_verification token.0 (now + 24 * hour))
  url ← link (codes "/verify-email?token=") token.1
  event ← new_email_notification_event notify_verify_email user url
  topic ← ask (λ w. w.env.notification_topic)
  or_err (app err_send_verification_email) (create_notification_outbox_event tx_ctx topic event)
  log tx_ctx meta action_resend_verification (some (map_user_to_audit_user user))
      (some (map_user_to_audit_user user))

unfoldable pub resend_verification : Option AuditMeta → Text → TokenType → M (Unit {0})
resend_verification meta address type = do
  email ← ask (λ w. normalize_identity w address)
  found ← or_err (app err_user_not_found) (Users.find_by_email base_ctx email)
  token ← generate_hash_token
  or_err (app err_internal_server) (with_tx (resend_tx meta found type token))
