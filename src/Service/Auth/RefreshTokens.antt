-- ===== src/Service/Auth/RefreshTokens.antt =====
-- Refresh and handleRefreshTokenReuse of internal/service/auth.go: rotation of refresh tokens
pub mod Effects
pub mod Race
pub mod Reuse
use Prim.Native.String.{String}
use portal_backend.Prelude.{
  ℕ, ◌+◌, Bool, not, ◌&&◌, List, [], ◌∷◌, Option, none, some, is_some, is_none, ltb, ◌==◌,
  if◌then◌else◌,
}
use portal_backend.Text.{Text, codes, is_empty, trim_space}
use portal_backend.Domain.{refresh_token_reuse_detected}
use portal_backend.Errors.{
  app, err_invalid_input, err_invalid_refresh_token, err_user_not_found, err_account_deleted,
  err_account_not_verified, err_internal_server,
}
use portal_backend.Model.{User, AuthSession, RefreshToken, Json, text_value, id_value, nil_id}
use portal_backend.World.{
  World, M, base_ctx, tx_ctx, moment, pure, fail, ◌>>=◌, ◌>>◌, or_err, log_err, unless_not_found,
  ensure, ask, with_tx,
}
use portal_backend.Repo.Users
use portal_backend.Repo.Sessions
use portal_backend.Repo.Refresh
use portal_backend.Service.Audit.{AuditMeta, AuditUser, log_with_metadata}
use portal_backend.Service.Token.{
  generate_access_token, generate_hash_token, hash_token, expires_in_seconds, claims_of,
}
use portal_backend.Service.Auth.{mark_all_revoked}
use portal_backend.Service.Auth.Login.{new_refresh_token}

pub record RefreshResult : Type 0 where
  pub access_token : Text
  pub refresh_token : Text
  pub expires_in : ℕ

unfoldable pub reuse_fields : RefreshToken → List (String × Json)
reuse_fields reused =
    ("event", text_value (codes "refresh_token_reuse_detected"))
    ∷ ("session_id", id_value reused.session_id)
    ∷ ("refresh_token_id", id_value reused.id)
    ∷ []

-- All sessions and all refresh tokens of a user are revoked; "nothing to revoke" is no error.
unfoldable pub revoke_user_tx : ℕ → M (Unit {0})
revoke_user_tx user = do
  unless_not_found (Sessions.revoke_all_by_user_id tx_ctx user)
  unless_not_found (Refresh.revoke_by_user_id tx_ctx user)

abbrev pub bare_user : ℕ → AuditUser
bare_user i = record { id = i; username = []; email = []; role_code = [] }

unfoldable pub handle_refresh_token_reuse : Option AuditMeta → RefreshToken → M (Unit {0})
handle_refresh_token_reuse meta reused = if reused.user_id == nil_id then pure tt else (do
  sessions ←
      or_err (app err_internal_server) (Sessions.list_active_by_user_id base_ctx reused.user_id)
  with_tx (revoke_user_tx reused.user_id)
  mark_all_revoked sessions
  log_err (
      log_with_metadata base_ctx meta refresh_token_reuse_detected (some (bare_user reused.user_id))
        (some (bare_user reused.user_id)) (some (reuse_fields reused))))

-- the rotation: the old token is revoked, the new one stored, and the old one points to it
unfoldable pub rotate_tx : ℕ → RefreshToken → M (Unit {0})
rotate_tx old row = do
  Refresh.revoke_by_id tx_ctx old
  made ← Refresh.create tx_ctx row
  Refresh.mark_replacement tx_ctx old made.id

-- a refresh token never outlives its session
abbrev pub cap_expiry : ℕ → ℕ → ℕ
cap_expiry wanted session_end = if ltb session_end wanted then session_end else wanted

-- what follows for a token that is not revoked
unfoldable pub refresh_with : RefreshToken → M RefreshResult
refresh_with found = do
  now ← ask moment
  ensure (ltb now found.expires_at) (app err_invalid_refresh_token)
  session ←
      or_err (app err_invalid_refresh_token) (Sessions.find_active_by_id base_ctx found.session_id)
  user ← or_err (app err_user_not_found) (Users.find_by_id base_ctx session.user_id)
  ensure (is_none user.deleted_at) (app err_account_deleted)
  ensure (is_some user.email_verified_at) (app err_account_not_verified)
  token ← generate_hash_token
  wanted ← ask (λ w. now + w.env.refresh_ttl)
  access ← or_err (app err_internal_server) (generate_access_token (claims_of user session.id))
  or_err (app err_internal_server) (
      with_tx (
        rotate_tx found.id
          (new_refresh_token session.id user.id token.0 (cap_expiry wanted session.expires_at))))
  seconds ← ask expires_in_seconds
  pure (record { access_token = access; refresh_token = token.1; expires_in = seconds })

unfoldable pub refresh : Option AuditMeta → Text → M RefreshResult
refresh meta input = do
  let raw = trim_space input
  ensure (not (is_empty raw)) (app err_invalid_input)
  hash ← ask (λ w. hash_token w raw)
  found ← or_err (app err_invalid_refresh_token) (Refresh.find_by_token_hash base_ctx hash)
  if is_some found.revoked_at
      then (do
        log_err (handle_refresh_token_reuse meta found)
        fail (app err_invalid_refresh_token))
      else refresh_with found
