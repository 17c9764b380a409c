-- ===== src/Service/Closed.antt =====
-- The calls that the services share leave a closed session closed.
pub mod Accounts
pub mod Auth
pub mod Requests
use Prim.Native.String.{String}
use portal_backend.Prelude.{ℕ, List, Option, none, some}
use portal_backend.Text.{Text}
use portal_backend.Domain.{ActionName}
use portal_backend.World.Keeps.{
  Keeps-bind, Keeps, keeps_rules, Keeps-pure, Keeps-ask, Keeps-or_none, Keeps-ensure, Keeps-reads,
}
use portal_backend.Model.{User, NotificationType, NotificationEvent, Json, TokenClaims}
use portal_backend.World.{Ctx}
use portal_backend.Repo.Closed.{Closed}
use portal_backend.Service.Audit.{AuditMeta, AuditUser, log, marshal_data, log_with_metadata}
use portal_backend.Service.{validate_normalized_email, validate_normalized_username}
use portal_backend.Service.Notification.{
  new_email_notification_event, create_notification_outbox_event,
}
use portal_backend.Service.Token.{
  generate_access_token, generate_refresh_token, generate_hash_token,
}
use portal_backend.Service.UserService.{hash_password}
use portal_backend.Repo.Closed.Accounts.{
  audit_create-Closed, outbox_create-Closed, account_statements,
}
use portal_backend.Repo.Closed.Sessions.{session_statements}

module _ (s : ℕ) where
  pub validate_normalized_email-Closed : (t : Text) → Keeps (Closed s) (validate_normalized_email t)
  unfolding validate_normalized_email
  validate_normalized_email-Closed t =
      search (keeps_rules, audit_create-Closed, outbox_create-Closed) depth 40

  pub validate_normalized_username-Closed :
      (t : Text) → Keeps (Closed s) (validate_normalized_username t)
  unfolding validate_normalized_username
  validate_normalized_username-Closed t =
      search (keeps_rules, audit_create-Closed, outbox_create-Closed) depth 40

  pub log-Closed :
      (c : Ctx) (meta : Option AuditMeta) (a : ActionName) (actor target : Option AuditUser)
      → Keeps (Closed s) (log c meta a actor target)
  unfolding log
  log-Closed c meta a actor target =
      search (keeps_rules, audit_create-Closed, outbox_create-Closed) depth 40

  pub marshal_data-Closed : (d : Option (List (String × Json))) → Keeps (Closed s) (marshal_data d)
  unfolding marshal_data
  marshal_data-Closed none = Keeps-pure none
  marshal_data-Closed (some d) =
      Keeps-bind _ _ (Keeps-reads _ (λ w. Keeps-or_none _ _)) (λ t. Keeps-pure (some t))

  pub log_with_metadata-Closed :
      (c : Ctx) (meta : Option AuditMeta) (a : ActionName) (actor target : Option AuditUser)
      (d : Option (List (String × Json)))
      → Keeps (Closed s) (log_with_metadata c meta a actor target d)
  unfolding log_with_metadata
  log_with_metadata-Closed c meta a actor target d =
      search (keeps_rules, audit_create-Closed, marshal_data-Closed) depth 40

  pub new_email_notification_event-Closed :
      (t : NotificationType) (u : User) (url : Text)
      → Keeps (Closed s) (new_email_notification_event t u url)
  unfolding new_email_notification_event
  new_email_notification_event-Closed t u url =
      search (keeps_rules, audit_create-Closed, outbox_create-Closed) depth 40

  pub create_notification_outbox_event-Closed :
      (c : Ctx) (t : Text) (e : NotificationEvent)
      → Keeps (Closed s) (create_notification_outbox_event c t e)
  unfolding create_notification_outbox_event
  create_notification_outbox_event-Closed c t e = Keeps-bind _ _ (Keeps-ensure _ _) λ _.
      Keeps-bind _ _ (Keeps-ensure _ _) λ _.
        Keeps-bind _ _ (Keeps-reads _ (λ w. Keeps-or_none _ _)) λ p.
          Keeps-bind _ _ (Keeps-ask _)
            λ i. Keeps-bind _ _ (Keeps-ask _) (λ r. outbox_create-Closed s c _)

  pub generate_access_token-Closed :
      (claims : TokenClaims) → Keeps (Closed s) (generate_access_token claims)
  unfolding generate_access_token
  generate_access_token-Closed claims =
      search (keeps_rules, audit_create-Closed, outbox_create-Closed) depth 40

  pub generate_refresh_token-Closed : Keeps (Closed s) generate_refresh_token
  unfolding generate_refresh_token
  generate_refresh_token-Closed =
      search (keeps_rules, audit_create-Closed, outbox_create-Closed) depth 40

  pub generate_hash_token-Closed : Keeps (Closed s) generate_hash_token
  unfolding generate_hash_token
  generate_hash_token-Closed =
      search (keeps_rules, audit_create-Closed, outbox_create-Closed) depth 40

  pub hash_password-Closed : (t : Text) → Keeps (Closed s) (hash_password t)
  unfolding hash_password
  hash_password-Closed t = search (keeps_rules, audit_create-Closed, outbox_create-Closed) depth 40

pub ruleset closed_statements = (account_statements, session_statements)

pub ruleset closed_calls = (
  keeps_rules, validate_normalized_email-Closed, validate_normalized_username-Closed, log-Closed,
  marshal_data-Closed, log_with_metadata-Closed, new_email_notification_event-Closed,
  create_notification_outbox_event-Closed, generate_access_token-Closed,
  generate_refresh_token-Closed, generate_hash_token-Closed, hash_password-Closed,
)
