-- ===== src/Service/AdminService.antt =====
-- internal/service/admin.go. CreateUser runs in its transaction; DeleteUser, RestoreUser and
-- UpdateRole call with `ctx` inside theirs, so that their statements are committed one by one.
pub mod Effects
pub mod Atomicity
pub mod Access
use Prim.Native.String.{String}
use portal_backend.Prelude.{
  ℕ, ◌+◌, ◌*◌, Bool, true, false, not, ◌&&◌, ◌||◌, List, [], ◌∷◌, ◌++◌, Option, none, some, is_some,
  length, ◌==◌, if◌then◌else◌,
}
use portal_backend.Text.{Text, codes, is_empty}
use portal_backend.Domain.{
  UserStatus, RoleCode, role_code_admin, pending, active, deleted, status_none, other_status,
  status_is_valid, password_set, admin_search_user, admin_create_user, admin_delete_user,
  admin_restore_user, admin_assign_role,
}
use portal_backend.Errors.{
  app, err_invalid_input, err_internal_server, err_email_exists, err_username_exists,
  err_send_set_password_email, err_audit_logger, err_user_not_found, err_forbidden,
  err_user_not_deleted,
}
use portal_backend.Model.{
  User, Role, Json, text_value, role_value, number_value, flag_value, id_value, null_value,
  notify_set_password, nil_id, no_role,
}
use portal_backend.World.{
  World, M, Ctx, base_ctx, tx_ctx, moment, pure, ◌>>=◌, ◌>>◌, map_err, or_err, log_err, ensure, ask,
  deref, with_tx,
}
use portal_backend.Repo.Roles
use portal_backend.Repo.Users
use portal_backend.Repo.Users.{UserListFilter, status_eq}
use portal_backend.Repo.Tokens
use portal_backend.Service.{
  not_found_as, normalize_identity, validate_normalized_email, validate_normalized_username,
}
use portal_backend.Service.Audit.{
  AuditMeta, AuditUser, map_user_to_audit_user, log, log_with_metadata,
}
use portal_backend.Service.Notification.{
  hour, new_email_notification_event, create_notification_outbox_event,
}
use portal_backend.Service.Token.{generate_hash_token}

pub record UsersFilter : Type 0 where
  pub page : ℕ
  pub page_size : ℕ
  pub username : Text
  pub email : Text
  pub full_name : Text
  pub dob : Option ℕ
  pub role_code : Option RoleCode
  pub status : UserStatus
  pub include_deleted : Bool

pub record ListUsersResult : Type 0 where
  pub users : List User
  pub total : ℕ
  pub page : ℕ
  pub page_size : ℕ

-- the role that the filter names
unfoldable pub filter_role : Option RoleCode → M (Option ℕ)
filter_role none = pure none
filter_role (some code) = do
  role ← or_err (app err_invalid_input) (Roles.find_by_code base_ctx code)
  pure (some role.id)

abbrev pub status_text : UserStatus → Text
status_text status_none = []
status_text active = codes "active"
status_text pending = codes "pending_verification"
status_text deleted = codes "deleted"
status_text (other_status s) = s

abbrev pub code_or_null : Option RoleCode → Json
code_or_null none = null_value
code_or_null (some c) = text_value c

abbrev pub id_or_null : Option ℕ → Json
id_or_null none = null_value
id_or_null (some i) = id_value i

abbrev pub time_or_null : Option ℕ → Json
time_or_null none = null_value
time_or_null (some t) = number_value t

unfoldable pub search_fields : UsersFilter → Option ℕ → ℕ → ℕ → List (String × Json)
search_fields f role_id count total =
    ("filters.username", text_value f.username)
    ∷ ("filters.email", text_value f.email)
    ∷ ("filters.full_name", text_value f.full_name)
    ∷ ("filters.dob", time_or_null f.dob)
    ∷ ("filters.role_code", code_or_null f.role_code)
    ∷ ("filters.role_id", id_or_null role_id)
    ∷ ("filters.status", text_value (status_text f.status))
    ∷ ("filters.include_deleted", flag_value f.include_deleted)
    ∷ ("pagination.page", number_value f.page)
    ∷ ("pagination.page_size", number_value f.page_size)
    ∷ ("result_count", number_value count)
    ∷ ("total", number_value total)
    ∷ []

unfoldable pub list_users : Option AuditMeta → Option AuditUser → UsersFilter → M ListUsersResult
list_users meta actor f = do
  role_id ← filter_role f.role_code
  ensure (status_eq f.status status_none || status_is_valid f.status) (app err_invalid_input)
  found ← or_err (app err_internal_server) (
      Users.list_users base_ctx (record {
        page = f.page;
        page_size = f.page_size;
        username = f.username;
        email = f.email;
        full_name = f.full_name;
        dob = f.dob;
        role_id = role_id;
        status = f.status;
        include_deleted = f.include_deleted;
      }))
  log_err (
      log_with_metadata base_ctx meta admin_search_user actor none
        (some (search_fields f role_id (length found.0) found.1)))
  pure (record { users = found.0; total = found.1; page = f.page; page_size = f.page_size })

pub record CreateUserInput : Type 0 where
  pub email : Text
  pub username : Text
  pub first_name : Text
  pub last_name : Text
  pub dob : Option ℕ
  pub role_code : RoleCode

-- a row with an id
abbrev pub exists : Option User → Bool
exists none = false
exists (some u) = not (u.id == nil_id)

unfoldable pub create_user : Option AuditMeta → Option AuditUser → CreateUserInput → M User
create_user meta actor input = do
  ensure (not (is_empty input.role_code)) (app err_invalid_input)
  email ← ask (λ w. normalize_identity w input.email)
  username ← ask (λ w. normalize_identity w input.username)
  validate_normalized_email email
  validate_normalized_username username
  by_email ← or_err (app err_internal_server) (Users.find_by_email base_ctx email)
  ensure (not (exists by_email)) (app err_email_exists)
  by_username ← or_err (app err_internal_server) (Users.find_by_username base_ctx username)
  ensure (not (exists by_username)) (app err_username_exists)
  token ← generate_hash_token
  role ← or_err (app err_internal_server) (Roles.find_by_code base_ctx input.role_code)
  with_tx (do
    user ← or_err (app err_internal_server) (
        Users.create tx_ctx (record {
          id = nil_id;
          email = email;
          username = username;
          first_name = input.first_name;
          last_name = input.last_name;
          dob = input.dob;
          password_hash = none;
          role_id = role.id;
          role = role;
          status = pending;
          email_verified_at = none;
          last_login_at = none;
          deleted_at = none;
          deleted_by = none;
        }))
    or_err (app err_internal_server) (Tokens.revoke_by_user_and_type tx_ctx user.id password_set)
    now ← ask moment
    made ← or_err (app err_internal_server) (
        Tokens.create tx_ctx (record {
          id = nil_id;
          user_id = user.id;
          token_type = password_set;
          token_hash = token.0;
          expires_at = now + 24 * hour;
          used_at = none;
          revoked_at = none;
        }))
    url ←
        ask
          (λ w. w.env.frontend_url ++ (codes "/set-password?token=" ++ w.env.query_escape token.1))
    event ← new_email_notification_event notify_set_password user url
    topic ← ask (λ w. w.env.notification_topic)
    or_err (app err_send_set_password_email) (create_notification_outbox_event tx_ctx topic event)
    or_err (app err_audit_logger)
        (log tx_ctx meta admin_create_user actor (some (map_user_to_audit_user user)))
    pure user)

-- `actor.ID != user.ID && user.RoleID == roleAdmin.ID`
abbrev pub is_other_admin : AuditUser → User → Role → Bool
is_other_admin actor user role_admin = not (actor.id == user.id) && user.role_id == role_admin.id

unfoldable pub delete_user : Option AuditMeta → Option AuditUser → ℕ → M User
delete_user meta actor i = do
  user ← map_err (not_found_as (app err_user_not_found)) (Users.find_by_id base_ctx i)
  role_admin ← or_err (app err_internal_server) (Roles.find_by_code base_ctx role_code_admin)
  a ← deref actor
  ensure (not (is_other_admin a user role_admin)) (app err_forbidden)
  with_tx (do
    or_err (app err_internal_server) (Users.delete base_ctx i a.id)
    now ← ask moment
    let gone : User = record user {
      deleted_at = some now;
      deleted_by = some a.id;
      status = deleted;
    }
    or_err (app err_audit_logger)
        (log base_ctx meta admin_delete_user actor (some (map_user_to_audit_user gone)))
    pure gone)

unfoldable pub restore_user : Option AuditMeta → Option AuditUser → ℕ → M User
restore_user meta actor i = do
  user ← map_err (not_found_as (app err_user_not_found)) (Users.find_by_id_unscoped base_ctx i)
  ensure (is_some user.deleted_at) (app err_user_not_deleted)
  with_tx (do
    or_err (app err_internal_server) (Users.restore base_ctx i)
    let back : User = record user { deleted_at = none; deleted_by = none; status = active }
    or_err (app err_audit_logger)
        (log base_ctx meta admin_restore_user actor (some (map_user_to_audit_user back)))
    pure back)

unfoldable pub role_change_fields : Role → Role → List (String × Json)
role_change_fields old new = ("role.old", role_value old) ∷ ("role.new", role_value new) ∷ []

unfoldable pub update_role : Option AuditMeta → Option AuditUser → ℕ → RoleCode → M User
update_role meta actor i code = do
  ensure (not (is_empty code)) (app err_invalid_input)
  user ← map_err (not_found_as (app err_user_not_found)) (Users.find_by_id base_ctx i)
  role ← or_err (app err_internal_server) (Roles.find_by_code base_ctx code)
  role_admin ← or_err (app err_internal_server) (Roles.find_by_code base_ctx role_code_admin)
  a ← deref actor
  ensure (not (is_other_admin a user role_admin)) (app err_forbidden)
  if user.role_id == role.id
      then pure user
      else with_tx (do
        or_err (app err_internal_server) (Users.update_role base_ctx i role.id)
        let changed : User = record user { role = role }
        or_err (app err_audit_logger) (
            log_with_metadata base_ctx meta admin_assign_role actor
              (some (map_user_to_audit_user changed)) (some (role_change_fields user.role role)))
        pure changed)
