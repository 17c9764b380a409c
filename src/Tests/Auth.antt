-- ===== src/Tests/Auth.antt =====
-- Runs of the operations of internal/service/auth.go.
use portal_backend.Prelude.{ℕ, ◌+◌, arith, false, ◌≡◌, refl, [], ◌∷◌, none, some, ◌==◌}
use portal_backend.Text
use portal_backend.Domain.{password_reset, email_verification}
use portal_backend.World
use portal_backend.World.{World, ok, err, panic}
use portal_backend.Repo
use portal_backend.Repo.Users
use portal_backend.Repo.Tokens
use portal_backend.Repo.Sessions
use portal_backend.Repo.Refresh
use portal_backend.Repo.Audit
use portal_backend.Service
use portal_backend.Service.Audit as AuditLogger
use portal_backend.Service.Token
use portal_backend.Service.UserService
use portal_backend.Service.Auth
use portal_backend.Service.Auth.Login
use portal_backend.Service.Auth.Login.{LoginResult}
use portal_backend.Service.Auth.Login.Effects.{Checked, Opened, log_in_checks}
use portal_backend.Service.Auth.Verification
use portal_backend.Service.Auth.Verification.Effects.{resend_verification_panics}
use portal_backend.Service.Auth.Passwords
use portal_backend.Service.Auth.Passwords.{SetPasswordInput}
use portal_backend.Service.Auth.Passwords.Effects.{PasswordSet, apply_password_stores}
use portal_backend.Service.Auth.RefreshTokens
use portal_backend.Service.Auth.RefreshTokens.{RefreshResult}
use portal_backend.Service.Auth.RefreshTokens.Reuse.{reuse_closes}
use portal_backend.Service.Auth.RefreshTokens.Effects.{Rotated, refresh_rotates}
use portal_backend.Service.Auth.Logout
use portal_backend.Service.Auth.Logout.Effects.{
  SessionClosed, UserClosed, logout_closes, logout_all_closes,
}
use portal_backend.Model.{RefreshToken}
use portal_backend.Tests.{calm, alice, alices_token, user_10, returned}

abbrev login_run : World.Outcome LoginResult × World
login_run = Login.log_in none (0x61 ∷ []) (0x70 ∷ []) calm

abbrev login_result : LoginResult
login_result =
    returned (record { access_token = []; refresh_token = []; expires_in = 0; user = alice })
      login_run.0

log_in_checks_example :
    Checked calm (0x61 ∷ []) (0x70 ∷ []) login_result.user
    × Opened (calm.env.sha256_hex login_result.refresh_token) login_result.user login_run.1.base
unfolding Login.log_in Login.authenticate Login.find_by_identifier Login.new_session
    Login.new_refresh_token Login.open_session World.◌>>=◌ World.map_err World.log_err World.ask
    World.query World.write World.with_tx World.or_none World.ensure Users.find_by_username
    Users.preload Users.find_by_email Sessions.create Refresh.create Audit.create AuditLogger.log
    AuditLogger.audit_row Token.generate_access_token Token.generate_refresh_token Token.hash_token
    Token.expires_in_seconds Token.claims_of Service.normalize_identity Repo.normalize Text.to_lower
    Text.trim_space AuditLogger.map_user_to_audit_user Text.is_space Text.trim_left Text.trim_right
log_in_checks_example =
    log_in_checks none (0x61 ∷ []) (0x70 ∷ []) calm login_result login_run.1 refl

abbrev refresh_run : World.Outcome RefreshResult × World
refresh_run = RefreshTokens.refresh none (0x72 ∷ []) calm

abbrev refresh_result : RefreshResult
refresh_result =
    returned (record { access_token = []; refresh_token = []; expires_in = 0 }) refresh_run.0

same_id : (a b : RefreshToken) → some a ≡ some b → b.id ≡ a.id
same_id a b h = cc

other_id : (n i : ℕ) → i ≡ 30 → (500 + n == i) ≡ false
other_id n i h = ground arith

refresh_rotates_example : Rotated calm (0x72 ∷ []) refresh_result refresh_run.1
unfolding RefreshTokens.refresh RefreshTokens.refresh_with RefreshTokens.rotate_tx
    Login.new_refresh_token World.◌>>=◌ World.map_err World.log_err World.ask World.query
    World.write World.with_tx World.or_none World.ensure World.deref World.nullable
    World.unless_not_found Users.find_by_id Users.preload Sessions.find_active_by_id Refresh.create
    Refresh.find_by_token_hash Refresh.revoke_by_id Refresh.revoke_where Refresh.mark_replacement
    Token.generate_access_token Token.generate_hash_token Token.hash_token Token.expires_in_seconds
    Token.claims_of Repo.normalize Service.normalize_identity Text.to_lower Text.trim_space
    Text.is_space Text.trim_left Text.trim_right
refresh_rotates_example =
    refresh_rotates none (0x72 ∷ []) calm refresh_result refresh_run.1
      (λ t n h. other_id n t.id (same_id alices_token t h)) refl

abbrev new_password : SetPasswordInput
new_password = record { token = 0x74 ∷ []; password = 0x71 ∷ []; confirm_password = 0x71 ∷ [] }

abbrev reset_run : World.Outcome (Unit {0}) × World
reset_run = Passwords.apply_password_by_token none (some new_password) password_reset calm

apply_password_stores_example : PasswordSet calm new_password password_reset reset_run.1
unfolding Passwords.apply_password_by_token Passwords.password_statements Passwords.store_password
    UserService.hash_password World.◌>>=◌ World.map_err World.log_err World.ask World.query
    World.write World.with_tx World.or_none World.ensure World.deref World.nullable
    World.unless_not_found Users.find_by_id Users.preload Users.update_password
    Users.mark_email_verified Tokens.find_valid_token Tokens.mark_used Token.hash_token Audit.create
    AuditLogger.log AuditLogger.audit_row AuditLogger.map_user_to_audit_user Repo.normalize
    Service.normalize_identity Text.to_lower Text.trim_space Text.is_space Text.trim_left
    Text.trim_right
apply_password_stores_example =
    apply_password_stores none new_password password_reset calm reset_run.1 refl

abbrev logout_all_run : World.Outcome (Unit {0}) × World
logout_all_run = Logout.logout_all none (some user_10) calm

logout_all_closes_example : UserClosed 1002 10 logout_all_run.1.base
unfolding Logout.logout_all Logout.logout_all_tx Auth.mark_all_revoked World.◌>>=◌ World.map_err
    World.log_err World.ask World.query World.write World.with_tx World.or_none World.ensure
    World.deref World.nullable World.unless_not_found Sessions.list_active_by_user_id
    Sessions.revoke_all_by_user_id Sessions.mark_revoked Refresh.revoke_by_user_id
    Refresh.revoke_where Audit.create AuditLogger.log AuditLogger.audit_row
    AuditLogger.map_user_to_audit_user
logout_all_closes_example = logout_all_closes none user_10 calm logout_all_run.1 refl

abbrev reuse_run : World.Outcome (Unit {0}) × World
reuse_run = RefreshTokens.handle_refresh_token_reuse none alices_token calm

reuse_closes_example : UserClosed 1002 10 reuse_run.1.base
unfolding RefreshTokens.handle_refresh_token_reuse RefreshTokens.revoke_user_tx
    RefreshTokens.reuse_fields Auth.mark_all_revoked World.◌>>=◌ World.map_err World.log_err
    World.ask World.query World.write World.with_tx World.or_none World.ensure World.deref
    World.nullable World.unless_not_found Sessions.list_active_by_user_id
    Sessions.revoke_all_by_user_id Sessions.mark_revoked Refresh.revoke_by_user_id
    Refresh.revoke_where Audit.create AuditLogger.log_with_metadata AuditLogger.marshal_data
    AuditLogger.audit_row AuditLogger.map_user_to_audit_user
reuse_closes_example = reuse_closes none alices_token calm reuse_run.1 refl refl

resend_verification_panics_example :
    (Verification.resend_verification none (0x7A ∷ []) email_verification calm).0 ≡ panic
unfolding Repo.normalize Service.normalize_identity Text.to_lower Text.trim_space Text.is_space
    Text.trim_left Text.trim_right
resend_verification_panics_example =
    resend_verification_panics none (0x7A ∷ []) email_verification calm (2 ∷ []) (λ n. refl) refl
      refl

abbrev logout_run : World.Outcome (Unit {0}) × World
logout_run = Logout.logout none (some user_10) 20 calm

logout_closes_example : SessionClosed 20 logout_run.1.base
unfolding Logout.logout Logout.logout_tx World.◌>>=◌ World.map_err World.log_err World.ask
    World.query World.write World.with_tx World.or_none World.ensure World.deref World.nullable
    World.unless_not_found Sessions.find_active_by_id Sessions.revoke_by_id Sessions.mark_revoked
    Refresh.revoke_by_session_id Refresh.revoke_where Audit.create AuditLogger.log
    AuditLogger.audit_row AuditLogger.map_user_to_audit_user
logout_closes_example = logout_closes none (some user_10) 20 calm logout_run.1 refl
