-- ===== src/Service/Notification.antt =====
-- internal/service/publisher.go: notification events and their outbox rows
use Prim.Native.String.{String}
use portal_backend.Prelude.{ℕ, ◌+◌, ◌*◌, not, ◌∷◌, ◌++◌, Option, none, some, if◌then◌else◌}
use portal_backend.Text.{Text, codes, is_empty, trim_space}
use portal_backend.Errors.{plain}
use portal_backend.Model.{
  User, NotificationType, NotificationEvent, notify_verify_email, notify_reset_password,
  notify_set_password, status_pending,
}
use portal_backend.World.{World, M, Ctx, moment, fresh, ◌>>=◌, ◌>>◌, ensure, ask, or_none}
use portal_backend.Repo.Outbox

-- time.Hour: durations are counted in nanoseconds
abbrev pub hour : ℕ
hour = 3600000000000

abbrev pub type_text : NotificationType → Text
type_text notify_verify_email = codes "verify_email"
type_text notify_reset_password = codes "reset_password"
type_text notify_set_password = codes "set_password"

abbrev pub env_key : NotificationType → String
env_key notify_verify_email = "NOTIFICATION_VERIFY_EMAIL_TTL"
env_key notify_reset_password = "NOTIFICATION_RESET_PASSWORD_TTL"
env_key notify_set_password = "NOTIFICATION_SET_PASSWORD_TTL"

abbrev pub default_ttl : NotificationType → ℕ
default_ttl notify_verify_email = 24 * hour
default_ttl notify_reset_password = 1 * hour
default_ttl notify_set_password = 24 * hour

-- a variable that is set and is a duration
unfoldable pub duration_from_env : World → String → Option ℕ
duration_from_env w key =
    if is_empty (w.env.get_env key) then none else w.env.parse_duration (w.env.get_env key)

abbrev pub or_else : Option ℕ → ℕ → ℕ
or_else none d = d
or_else (some n) d = n

unfoldable pub get_notification_ttl_from_env : World → NotificationType → ℕ
get_notification_ttl_from_env w t =
    or_else (duration_from_env w (env_key t))
      (or_else (duration_from_env w "NOTIFICATION_EVENT_TTL") (default_ttl t))

unfoldable pub get_max_retry_from_env : World → ℕ
get_max_retry_from_env w =
    if is_empty (w.env.get_env "OUTBOX_WORKER_MAX_RETRY")
    then 10
    else or_else (w.env.atoi (w.env.get_env "OUTBOX_WORKER_MAX_RETRY")) 10

unfoldable pub new_email_notification_event : NotificationType → User → Text → M NotificationEvent
new_email_notification_event t user url = do
  occurred ← ask moment
  event_id ← ask (λ w. w.env.uuid_text (fresh w))
  ask (λ w. record {
    event_id = event_id;
    occurred_at = occurred;
    notification_type = t;
    recipient_id = w.env.uuid_text user.id;
    recipient_email = user.email;
    recipient_name = trim_space (user.first_name ++ (0x20 ∷ user.last_name));
    template = t;
    data_username = user.username;
    data_url = url;
    valid_until = occurred + get_notification_ttl_from_env w t;
    business_key = codes "email:" ++ (w.env.uuid_text user.id ++ (codes ":" ++ type_text t));
  })

-- The repository is there in every service that calls this.
unfoldable pub create_notification_outbox_event : Ctx → Text → NotificationEvent → M (Unit {0})
create_notification_outbox_event c topic event = do
  ensure (not (is_empty topic)) (plain "notification topic is required")
  ensure (not (is_empty event.event_id)) (plain "notification event_id is required")
  payload ← λ w. or_none (plain "marshal notification requested event") (w.env.marshal event) w
  id ← ask fresh
  retries ← ask get_max_retry_from_env
  Outbox.create c (record {
    id = id;
    topic = topic;
    message_key = event.event_id;
    payload = payload;
    status = status_pending;
    retry_count = 0;
    max_retry = retries;
    last_error = none;
    next_retry_at = none;
    claimed_at = none;
    claimed_by = none;
    published_at = none;
    created_at = 0;
  })
