-- ===== src/Service/UserService.antt =====
-- internal/service/user.go. The transactions of this service call the repositories and the audit
-- logger with `ctx`, not with `txCtx`: their statements are committed one by one.
pub mod Effects
use Prim.Native.String.{String}
use portal_backend.Prelude.{
  ℕ, Bool, false, not, ◌&&◌, ◌||◌, List, [], ◌∷◌, ◌++◌, Option, none, some, ◌==◌, if◌then◌else◌,
}
use portal_backend.Text.{Text, text_eq, is_empty, trim_space}
use portal_backend.Domain.{
  role_code_admin, admin_view_user, admin_update_user, change_password as action_change_password,
  update_profile as action_update_profile,
}
use portal_backend.Errors.{
  app, driver, err_user_not_found, err_unauthorized, err_invalid_input,
  err_password_confirmation_mismatch, err_incorrect_password, err_new_password_must_be_different,
  err_internal_server, err_audit_logger, err_forbidden, err_username_exists,
}
use portal_backend.Model.{User, Json, text_value, number_value, null_value}
use portal_backend.World.{
  M, base_ctx, pure, ◌>>=◌, ◌>>◌, map_err, or_err, log_err, ensure, ask, or_none, deref, with_tx,
}
use portal_backend.Repo.Roles
use portal_backend.Repo.Users
use portal_backend.Service.{not_found_as, normalize_identity, validate_normalized_username}
use portal_backend.Service.Audit.{
  AuditMeta, AuditUser, map_user_to_audit_user, log, log_with_metadata,
}

pub record UpdateUserInput : Type 0 where
  pub username : Option Text
  pub first_name : Option Text
  pub last_name : Option Text
  pub dob : Option ℕ

abbrev pub is_admin : AuditUser → Bool
is_admin actor = text_eq actor.role_code role_code_admin

-- bcrypt.GenerateFromPassword
unfoldable pub hash_password : Text → M Text
hash_password password = do
  hash ← ask (λ w. w.env.bcrypt_generate w.step password)
  or_none driver hash

unfoldable pub get_profile : Option AuditMeta → Option AuditUser → ℕ → M User
get_profile meta actor i = do
  user ← map_err (not_found_as (app err_user_not_found)) (Users.find_by_id base_ctx i)
  a ← deref actor
  if is_admin a
      then (do
        log_err (log base_ctx meta admin_view_user actor (some (map_user_to_audit_user user)))
        pure user)
      else pure user

-- a stored hash that is there and not empty
abbrev pub has_password : Option Text → Bool
has_password none = false
has_password (some h) = not (is_empty h)

abbrev pub text_or_empty : Option Text → Text
text_or_empty none = []
text_or_empty (some s) = s

unfoldable pub change_password :
    Option AuditMeta → Option AuditUser → Text → Text → Text → M (Unit {0})
change_password meta actor current new_password confirm = do
  a ← deref actor
  user ← map_err (not_found_as (app err_unauthorized)) (Users.find_by_id base_ctx a.id)
  ensure (not (is_empty (trim_space new_password) || is_empty (trim_space confirm)))
      (app err_invalid_input)
  ensure (has_password user.password_hash) (app err_unauthorized)
  ensure (text_eq new_password confirm) (app err_password_confirmation_mismatch)
  matches ← ask (λ w. w.env.bcrypt_compare (text_or_empty user.password_hash) current)
  ensure matches (app err_incorrect_password)
  ensure (not (text_eq current new_password)) (app err_new_password_must_be_different)
  hashed ← hash_password new_password
  with_tx (do
    or_err (app err_internal_server) (Users.update_password base_ctx a.id hashed)
    or_err (app err_audit_logger) (log base_ctx meta action_change_password actor actor))

-- the fields that UpdateProfile may change
abbrev pub or_old : Option Text → Text → Text
or_old none old = old
or_old (some new) old = new

abbrev pub or_old_dob : Option ℕ → Option ℕ → Option ℕ
or_old_dob none old = old
or_old_dob (some new) old = some new

abbrev pub number_or_null : Option ℕ → Json
number_or_null none = null_value
number_or_null (some n) = number_value n

unfoldable pub change_fields : User → UpdateUserInput → List (String × Json)
change_fields user input =
    elim input.first_name [
      | none ↦ []
      | some s ↦
          ("changes.first_name.old", text_value user.first_name)
          ∷ ("changes.first_name.new", text_value s)
          ∷ []
    ]
    ++ (elim input.last_name [
      | none ↦ []
      | some s ↦
          ("changes.last_name.old", text_value user.last_name)
          ∷ ("changes.last_name.new", text_value s)
          ∷ []
    ]
        ++ elim input.dob [
          | none ↦ []
          | some d ↦
              ("changes.dob.old", number_or_null user.dob)
              ∷ ("changes.dob.new", number_value d)
              ∷ []
        ])

unfoldable pub username_fields : User → Text → List (String × Json)
username_fields user name =
    if text_eq name user.username
    then []
    else ("changes.username.old", text_value user.username)
      ∷ ("changes.username.new", text_value name)
      ∷ []

-- another row has the name
abbrev pub belongs_to_other : ℕ → Option User → Bool
belongs_to_other i none = false
belongs_to_other i (some v) = not (v.id == i)

-- the name to store and what the change adds to the metadata
unfoldable pub new_username : User → Option Text → M (Text × List (String × Json))
new_username user none = pure (user.username, [])
new_username user (some input) = do
  name ← ask (λ w. normalize_identity w input)
  validate_normalized_username name
  old ← ask (λ w. normalize_identity w user.username)
  if text_eq name old then pure (name, username_fields user name) else (do
    existing ← Users.find_by_username base_ctx name
    ensure (not (belongs_to_other user.id existing)) (app err_username_exists)
    pure (name, username_fields user name))

unfoldable pub update_profile : Option AuditMeta → Option AuditUser → ℕ → UpdateUserInput → M User
update_profile meta actor i input = do
  user ← map_err (not_found_as (app err_user_not_found)) (Users.find_by_id base_ctx i)
  role_admin ← or_err (app err_internal_server) (Roles.find_by_code base_ctx role_code_admin)
  a ← deref actor
  ensure (not (not (a.id == user.id) && user.role_id == role_admin.id)) (app err_forbidden)
  named ← new_username user input.username
  let changed : User = record user {
    first_name = or_old input.first_name user.first_name;
    last_name = or_old input.last_name user.last_name;
    dob = or_old_dob input.dob user.dob;
    username = named.0;
  }
  with_tx (do
    or_err (app err_internal_server) (Users.update base_ctx changed)
    stored ← ask (λ w. record changed { username = normalize_identity w changed.username })
    or_err (app err_audit_logger) (
        log_with_metadata base_ctx meta
          (if is_admin a then admin_update_user else action_update_profile) actor
          (some (map_user_to_audit_user stored)) (some (change_fields user input ++ named.1)))
    pure stored)
