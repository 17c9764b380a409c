-- ===== src/Tests/Sessions.antt =====
-- Runs of several requests, one after the other, over the same sessions and tokens.
use portal_backend.Prelude.{ℕ, ◌+◌, false, ◌≡◌, refl, List, [], ◌∷◌, ◌++◌, none, some, ◌==◌, arith}
use portal_backend.Model.{RefreshToken}
use portal_backend.World
use portal_backend.World.{World, with_tx}
use portal_backend.World.Atomic.{is_ok}
use portal_backend.Text
use portal_backend.Repo
use portal_backend.Repo.Users
use portal_backend.Repo.Sessions
use portal_backend.Repo.Refresh
use portal_backend.Repo.Roles
use portal_backend.Repo.Audit
use portal_backend.Service
use portal_backend.Service.Audit as AuditLogger
use portal_backend.Service.Token
use portal_backend.Service.Auth.Login
use portal_backend.Service.Auth.Logout
use portal_backend.Service.RoleService
use portal_backend.Service.Closed.Requests.{
  Request, end_session, permissions, answered_all, logout_is_final,
}
use portal_backend.Service.Auth.RefreshTokens
use portal_backend.Service.Auth.RefreshTokens.{RefreshResult}
use portal_backend.Service.Auth.RefreshTokens.Race.{rotation_is_once}
use portal_backend.Service.AdminService
use portal_backend.Service.AdminService.Access.{found_by, tokens_outlive_changes}
use portal_backend.Access.Authenticator
use portal_backend.Access.Authenticator.{Principal}
use portal_backend.Tests.{calm, alices_token, root, user_10, returned}
use portal_backend.Tests.Access.{guarded, claims}

-- a second session of the user
abbrev two_sessions : World
two_sessions = record guarded {
  env = record guarded.env { verify = λ n s. some (record claims { session_id = 21 }) };
  base = record guarded.base {
    auth_sessions =
        guarded.base.auth_sessions
        ++ record {
          id = 21;
          user_id = 10;
          expires_at = 3000;
          user_agent = [];
          ip_address = [];
          last_used_at = none;
          revoked_at = none;
        }
          ∷ [];
  };
}

abbrev after_logout : World
after_logout = (Logout.logout none (some user_10) 20 two_sessions).1

-- what is asked afterwards: the same logout once more, and the permissions
abbrev requests : List Request
requests = end_session none (some user_10) 20 ∷ permissions ∷ []

-- a caller with a token of the second session
abbrev accepted : World.Outcome Principal × World
accepted = Authenticator.authenticate [] (answered_all requests after_logout)

abbrev caller : Principal
caller =
    returned
      (record {
        user_id = 0;
        username = [];
        email = [];
        role_id = 0;
        role_code = [];
        session_id = 20;
        permissions = [];
      })
      accepted.0

drawn_is_new : (n : ℕ) → (500 + n == 20) ≡ false
drawn_is_new n = ground arith

logout_is_final_example : (caller.session_id == 20) ≡ false
unfolding Logout.logout Logout.logout_tx Sessions.find_active_by_id Sessions.revoke_by_id
    Sessions.mark_revoked Sessions.is_revoked Refresh.revoke_by_session_id Refresh.revoke_where
    Audit.create AuditLogger.log AuditLogger.audit_row World.◌>>=◌ World.or_none World.ensure
    World.map_err World.query World.write World.with_tx World.unless_not_found World.log_err
    World.ask Authenticator.authenticate Authenticator.check_revoked Authenticator.principal_of
    Token.parse Roles.get_with_permissions RoleService.list_permission Roles.list_permissions
logout_is_final_example =
    logout_is_final none (some user_10) 20 two_sessions after_logout requests [] caller accepted.1
      drawn_is_new refl refl

abbrev after_refresh : World.Outcome RefreshResult × World
after_refresh = RefreshTokens.refresh none (0x72 ∷ []) calm

abbrev refresh_result : RefreshResult
refresh_result =
    returned (record { access_token = []; refresh_token = []; expires_in = 0 }) after_refresh.0

abbrev rival : RefreshToken
rival = record alices_token { id = 31; token_hash = 0x72 ∷ [] }

same_id : (a b : RefreshToken) → some a ≡ some b → b.id ≡ a.id
same_id a b h = cc

other_id : (n i : ℕ) → i ≡ 30 → (500 + n == i) ≡ false
other_id n i h = ground arith

rotation_is_once_example :
    (is_ok (with_tx (RefreshTokens.rotate_tx 30 rival) after_refresh.1).0 ≡ false)
    × ((with_tx (RefreshTokens.rotate_tx 30 rival) after_refresh.1).1.base ≡ after_refresh.1.base)
unfolding RefreshTokens.refresh RefreshTokens.refresh_with RefreshTokens.rotate_tx
    Login.new_refresh_token World.◌>>=◌ World.map_err World.log_err World.ask World.query
    World.write World.with_tx World.or_none World.ensure World.deref World.nullable
    World.unless_not_found Users.find_by_id Users.preload Sessions.find_active_by_id Refresh.create
    Refresh.find_by_token_hash Refresh.revoke_by_id Refresh.revoke_where Refresh.mark_replacement
    Token.generate_access_token Token.generate_hash_token Token.hash_token Token.expires_in_seconds
    Token.claims_of Repo.normalize Service.normalize_identity Text.to_lower Text.trim_space
    Text.is_space Text.trim_left Text.trim_right
rotation_is_once_example =
    rotation_is_once none (0x72 ∷ []) calm refresh_result after_refresh.1 after_refresh.1
      alices_token rival (λ t n h. other_id n t.id (same_id alices_token t h)) refl refl refl

tokens_outlive_changes_example :
    let start : World = record guarded { tx = guarded.base } in
    ((Authenticator.authenticate []
        (found_by 9 guarded.tx (AdminService.delete_user none (some root) 10 start).1)).0
      ≡ (Authenticator.authenticate [] (found_by 9 guarded.tx guarded)).0)
    × ((Authenticator.authenticate [] (
          found_by 9 guarded.tx
            (AdminService.update_role none (some root) 10 (0x55 ∷ []) start).1)).0
        ≡ (Authenticator.authenticate [] (found_by 9 guarded.tx guarded)).0)
tokens_outlive_changes_example =
    tokens_outlive_changes none (some root) 10 (0x55 ∷ []) [] 9 guarded.tx guarded
