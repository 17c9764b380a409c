-- ===== src/Model.antt =====
-- internal/model: the rows of the tables, and the database as the tables. A nullable column is an
-- Option; a time is a number on one time line; an id is a number, and uuid.Nil is 0. Columns that
-- gorm alone fills and no code reads (CreatedAt and UpdatedAt of most tables) are left out.
use portal_backend.Prelude.{ℕ, Bool, List, [], Option}
use portal_backend.Text.{Text}
use portal_backend.Domain.{UserStatus, TokenType, ActionName, RoleCode}

abbrev pub nil_id : ℕ
nil_id = 0

pub record Permission : Type 0 where
  pub id : ℕ
  pub code : Text
  pub name : Text

pub record Role : Type 0 where
  pub id : ℕ
  pub code : RoleCode
  pub name : Text
  pub is_system : Bool

pub record RolePermission : Type 0 where
  pub role_id : ℕ
  pub permission_id : ℕ

pub record User : Type 0 where
  pub id : ℕ
  pub email : Text
  pub username : Text
  pub first_name : Text
  pub last_name : Text
  pub dob : Option ℕ
  pub password_hash : Option Text
  pub role_id : ℕ
  pub role : Role  -- filled in by Preload("Role"), not a column
  pub status : UserStatus
  pub email_verified_at : Option ℕ
  pub last_login_at : Option ℕ
  pub deleted_at : Option ℕ
  pub deleted_by : Option ℕ

pub record UserToken : Type 0 where
  pub id : ℕ
  pub user_id : ℕ
  pub token_type : TokenType
  pub token_hash : Text
  pub expires_at : ℕ
  pub used_at : Option ℕ
  pub revoked_at : Option ℕ

pub record AuthSession : Type 0 where
  pub id : ℕ
  pub user_id : ℕ
  pub expires_at : ℕ
  pub user_agent : Text
  pub ip_address : Text
  pub last_used_at : Option ℕ
  pub revoked_at : Option ℕ

pub record RefreshToken : Type 0 where
  pub id : ℕ
  pub session_id : ℕ
  pub user_id : ℕ
  pub token_hash : Text
  pub expires_at : ℕ
  pub revoked_at : Option ℕ
  pub replaced_by_token_id : Option ℕ

pub data OutboxStatus : Type 0 where
  status_pending status_publishing status_retry_scheduled : OutboxStatus
  status_published status_dead_letter : OutboxStatus

pub record OutboxEvent : Type 0 where
  pub id : ℕ
  pub topic : Text
  pub message_key : Text
  pub payload : Text
  pub status : OutboxStatus
  pub retry_count : ℕ
  pub max_retry : ℕ  -- 0 stands for every value that is not positive
  pub last_error : Option Text
  pub next_retry_at : Option ℕ
  pub claimed_at : Option ℕ
  pub claimed_by : Option Text
  pub published_at : Option ℕ
  pub created_at : ℕ

pub record AuditLog : Type 0 where
  pub id : ℕ
  pub action : ActionName
  pub actor_user_id : Option ℕ
  pub actor_username : Option Text
  pub actor_email : Option Text
  pub actor_role : Option RoleCode
  pub target_user_id : Option ℕ
  pub target_username : Option Text
  pub target_email : Option Text
  pub target_role : Option RoleCode
  pub metadata : Option Text
  pub ip_address : Option Text
  pub user_agent : Option Text
  pub created_at : ℕ

pub record Db : Type 0 where
  pub users : List User
  pub roles : List Role
  pub permissions : List Permission
  pub role_permissions : List RolePermission
  pub user_tokens : List UserToken
  pub auth_sessions : List AuthSession
  pub refresh_tokens : List RefreshToken
  pub outbox_events : List OutboxEvent
  pub action_logs : List AuditLog

-- shared/events/notification/v1: the event, its recipient's fields and its data flattened in it.
pub data NotificationType : Type 0 where
  notify_verify_email notify_reset_password notify_set_password : NotificationType

pub record NotificationEvent : Type 0 where
  pub event_id : Text
  pub occurred_at : ℕ
  pub notification_type : NotificationType
  pub recipient_id : Text
  pub recipient_email : Text
  pub recipient_name : Text
  pub template : NotificationType
  pub data_username : Text
  pub data_url : Text
  pub valid_until : ℕ
  pub business_key : Text

-- The values of the metadata of an audit log; a nested key is written with dots.
pub data Json : Type 0 where
  text_value : Text → Json
  id_value : ℕ → Json
  number_value : ℕ → Json
  flag_value : Bool → Json
  role_value : Role → Json  -- the fields of a row, its permissions not loaded
  null_value : Json

-- The claims of an access token.
pub record TokenClaims : Type 0 where
  pub user_id : ℕ
  pub session_id : ℕ
  pub username : Text
  pub email : Text
  pub role_id : ℕ
  pub role_code : RoleCode

abbrev pub no_role : Role
no_role = record { id = 0; code = []; name = []; is_system = Bool.false }

abbrev pub empty_db : Db
empty_db = record {
  users = [];
  roles = [];
  permissions = [];
  role_permissions = [];
  user_tokens = [];
  auth_sessions = [];
  refresh_tokens = [];
  outbox_events = [];
  action_logs = [];
}
