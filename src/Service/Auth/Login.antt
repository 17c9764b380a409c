-- ===== src/Service/Auth/Login.antt =====
-- LogIn of internal/service/auth.go. The session is created with `ctx`, outside the transaction
-- that creates its refresh token.
pub mod Effects
use portal_backend.Prelude.{
  ℕ, ◌+◌, Bool, not, Option, none, some, is_some, is_none, if◌then◌else◌, [],
}
use portal_backend.Text.{Text}
use portal_backend.Domain.{login}
use portal_backend.Errors.{
  app, err_invalid_credentials, err_account_not_verified, err_account_deleted, err_internal_server,
}
use portal_backend.Model.{User, AuthSession, RefreshToken, nil_id}
use portal_backend.World.{
  World, M, base_ctx, tx_ctx, moment, pure, ◌>>=◌, ◌>>◌, or_err, log_err, ensure, ask, or_none,
  with_tx,
}
use portal_backend.Repo.Users
use portal_backend.Repo.Sessions
use portal_backend.Repo.Refresh
use portal_backend.Service.{normalize_identity}
use portal_backend.Service.Audit.{AuditMeta, map_user_to_audit_user, log}
use portal_backend.Service.Token.{
  generate_access_token, generate_refresh_token, hash_token, expires_in_seconds, claims_of,
}
use portal_backend.Service.UserService.{has_password, text_or_empty}

pub record LoginResult : Type 0 where
  pub access_token : Text
  pub refresh_token : Text
  pub expires_in : ℕ
  pub user : User

abbrev pub agent_of : Option AuditMeta → Text
agent_of none = []
agent_of (some m) = m.user_agent

abbrev pub address_of : Option AuditMeta → Text
address_of none = []
address_of (some m) = m.ip_address

-- isEmail decides which column the identifier is looked up in
unfoldable pub find_by_identifier : Text → M (Option User)
find_by_identifier identifier w =
    if w.env.parse_address identifier
    then Users.find_by_email base_ctx identifier w
    else Users.find_by_username base_ctx identifier w

unfoldable pub new_session : Option AuditMeta → User → ℕ → ℕ → AuthSession
new_session meta user expires now = record {
  id = nil_id;
  user_id = user.id;
  expires_at = expires;
  user_agent = agent_of meta;
  ip_address = address_of meta;
  last_used_at = some now;
  revoked_at = none;
}

unfoldable pub new_refresh_token : ℕ → ℕ → Text → ℕ → RefreshToken
new_refresh_token session user hash expires = record {
  id = nil_id;
  session_id = session;
  user_id = user;
  token_hash = hash;
  expires_at = expires;
  revoked_at = none;
  replaced_by_token_id = none;
}

-- the tests of the credentials and of the account
unfoldable pub authenticate : Text → Text → M User
authenticate identifier password = do
  name ← ask (λ w. normalize_identity w identifier)
  found ← or_err (app err_invalid_credentials) (find_by_identifier name)
  user ← or_none (app err_invalid_credentials) found
  ensure (has_password user.password_hash) (app err_account_not_verified)
  matches ← ask (λ w. w.env.bcrypt_compare (text_or_empty user.password_hash) password)
  ensure matches (app err_invalid_credentials)
  ensure (is_some user.email_verified_at) (app err_account_not_verified)
  ensure (is_none user.deleted_at) (app err_account_deleted)
  pure user

-- the transaction: the session first, then its refresh token
unfoldable pub open_session : AuthSession → Text → M AuthSession
open_session row hash = do
  session ← Sessions.create base_ctx row
  token ←
      Refresh.create tx_ctx (new_refresh_token session.id session.user_id hash session.expires_at)
  pure session

unfoldable pub log_in : Option AuditMeta → Text → Text → M LoginResult
log_in meta identifier password = do
  user ← authenticate identifier password
  raw ← or_err (app err_internal_server) generate_refresh_token
  now ← ask moment
  hash ← ask (λ w. hash_token w raw)
  expires ← ask (λ w. now + w.env.refresh_ttl)
  session ←
      or_err (app err_internal_server)
        (with_tx (open_session (new_session meta user expires now) hash))
  access ← generate_access_token (claims_of user session.id)
  log_err (log base_ctx meta login (some (map_user_to_audit_user user)) none)
  seconds ← ask expires_in_seconds
  pure (record { access_token = access; refresh_token = raw; expires_in = seconds; user = user })
