-- ===== src/Service/Rules.antt =====
-- The calls that the services share leave the committed database alone inside a transaction.
use Prim.Native.String.{String}
use portal_backend.Prelude.{List, Option, none, some}
use portal_backend.Text.{Text}
use portal_backend.Domain.{ActionName}
use portal_backend.Model.{User, NotificationType, NotificationEvent, Json}
use portal_backend.World.{World, M, tx_ctx}
use portal_backend.World.Atomic.{
  TxOnly, TxOnly-bind, TxOnly-pure, TxOnly-or_none, TxOnly-ensure, TxOnly-ask, tx_rules,
}
use portal_backend.Repo.Statements.{audit_create-TxOnly, outbox_create-TxOnly, statement_rules}
use portal_backend.Service.Audit.{AuditMeta, AuditUser, log, log_with_metadata, marshal_data}
use portal_backend.Service.Notification.{
  new_email_notification_event, create_notification_outbox_event,
}
use portal_backend.Service.Token.{
  generate_access_token, generate_refresh_token, generate_hash_token,
}

-- An action that looks at the world first.
pub TxOnly-reads :
    {A : Type 0} (m : World → M A) → ((w : World) → TxOnly (m w)) → TxOnly (λ w. m w w)
TxOnly-reads m h = record { at = λ w. (h w).at w }

pub log-TxOnly :
    (meta : Option AuditMeta) (a : ActionName) (actor target : Option AuditUser)
    → TxOnly (log tx_ctx meta a actor target)
unfolding log
log-TxOnly meta a actor target = audit_create-TxOnly _

marshal_data-TxOnly : (d : Option (List (String × Json))) → TxOnly (marshal_data d)
unfolding marshal_data
marshal_data-TxOnly none = TxOnly-pure none
marshal_data-TxOnly (some d) =
    TxOnly-bind _ _ (TxOnly-reads _ (λ w. TxOnly-or_none _ _)) (λ t. TxOnly-pure (some t))

pub log_with_metadata-TxOnly :
    (meta : Option AuditMeta) (a : ActionName) (actor target : Option AuditUser)
    (d : Option (List (String × Json)))
    → TxOnly (log_with_metadata tx_ctx meta a actor target d)
unfolding log_with_metadata
log_with_metadata-TxOnly meta a actor target d =
    TxOnly-bind _ _ (marshal_data-TxOnly d) (λ t. audit_create-TxOnly _)

pub new_email_notification_event-TxOnly :
    (t : NotificationType) (u : User) (url : Text) → TxOnly (new_email_notification_event t u url)
unfolding new_email_notification_event
new_email_notification_event-TxOnly t u url =
    TxOnly-bind _ _ (TxOnly-ask _) (λ o. TxOnly-bind _ _ (TxOnly-ask _) (λ e. TxOnly-ask _))

pub create_notification_outbox_event-TxOnly :
    (topic : Text) (e : NotificationEvent)
    → TxOnly (create_notification_outbox_event tx_ctx topic e)
unfolding create_notification_outbox_event
create_notification_outbox_event-TxOnly topic e = TxOnly-bind _ _ (TxOnly-ensure _ _) λ _.
    TxOnly-bind _ _ (TxOnly-ensure _ _) λ _.
      TxOnly-bind _ _ (TxOnly-reads _ (λ w. TxOnly-or_none _ _)) λ p.
        TxOnly-bind _ _ (TxOnly-ask _)
          λ i. TxOnly-bind _ _ (TxOnly-ask _) (λ r. outbox_create-TxOnly _)

pub generate_hash_token-TxOnly : TxOnly generate_hash_token
unfolding generate_hash_token
generate_hash_token-TxOnly = search tx_rules depth 8

pub generate_access_token-TxOnly :
    (c : portal_backend.Model.TokenClaims) → TxOnly (generate_access_token c)
unfolding generate_access_token
generate_access_token-TxOnly c = search tx_rules depth 8

pub generate_refresh_token-TxOnly : TxOnly generate_refresh_token
unfolding generate_refresh_token
generate_refresh_token-TxOnly = search tx_rules depth 8

pub ruleset service_rules = (
  tx_rules, statement_rules, log-TxOnly, log_with_metadata-TxOnly,
  new_email_notification_event-TxOnly, create_notification_outbox_event-TxOnly,
  generate_hash_token-TxOnly, generate_access_token-TxOnly, generate_refresh_token-TxOnly,
)
