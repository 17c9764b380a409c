-- ===== src/Service/Auth/Logout.antt =====
-- Logout and LogoutAll of internal/service/auth.go
pub mod Effects
pub mod Access
use portal_backend.Prelude.{ℕ, Bool, not, Option, some, ◌==◌}
use portal_backend.Domain.{logout as action_logout}
use portal_backend.Errors.{app, err_unauthorized, err_invalid_input, err_internal_server}
use portal_backend.Model.{AuthSession, nil_id}
use portal_backend.World.{
  World, M, base_ctx, tx_ctx, ◌>>=◌, ◌>>◌, or_err, log_err, unless_not_found, ensure, or_none,
  with_tx,
}
use portal_backend.Repo.Sessions
use portal_backend.Repo.Refresh
use portal_backend.Service.Audit.{AuditMeta, AuditUser, log}
use portal_backend.Service.Auth.{mark_all_revoked}

unfoldable pub logout_tx : ℕ → M (Unit {0})
logout_tx session = do
  unless_not_found (Sessions.revoke_by_id tx_ctx session)
  Refresh.revoke_by_session_id tx_ctx session

unfoldable pub logout : Option AuditMeta → Option AuditUser → ℕ → M (Unit {0})
logout meta actor session_id = do
  a ← or_none (app err_unauthorized) actor
  ensure (not (session_id == nil_id)) (app err_invalid_input)
  session ← or_err (app err_invalid_input) (Sessions.find_active_by_id base_ctx session_id)
  or_err (app err_internal_server) (with_tx (logout_tx session_id))
  log_err (Sessions.mark_revoked session.id session.expires_at)
  log_err (log base_ctx meta action_logout actor actor)

unfoldable pub logout_all_tx : ℕ → M (Unit {0})
logout_all_tx user = do
  unless_not_found (Sessions.revoke_all_by_user_id tx_ctx user)
  Refresh.revoke_by_user_id tx_ctx user

unfoldable pub logout_all : Option AuditMeta → Option AuditUser → M (Unit {0})
logout_all meta actor = do
  a ← or_none (app err_unauthorized) actor
  ensure (not (a.id == nil_id)) (app err_invalid_input)
  sessions ← or_err (app err_internal_server) (Sessions.list_active_by_user_id base_ctx a.id)
  or_err (app err_internal_server) (with_tx (logout_all_tx a.id))
  mark_all_revoked sessions
  log_err (log base_ctx meta action_logout actor actor)
