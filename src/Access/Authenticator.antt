-- ===== src/Access/Authenticator.antt =====
-- internal/infrastructure/security: authenticator.go, authorizer.go and principal.go
use portal_backend.Prelude.{ℕ, Bool, false, not, List, [], ◌∷◌, any, ◌==◌}
use portal_backend.Text.{Text, codes, text_eq}
use portal_backend.Domain.{RoleCode, PermissionCode, permission_text}
use portal_backend.Errors.{plain}
use portal_backend.Model.{TokenClaims, Role, Permission}
use portal_backend.World.{Outcome, ok, err, panic, M, base_ctx, pure, ◌>>=◌, ◌>>◌, ensure}
use portal_backend.Repo.Roles
use portal_backend.Repo.Sessions
use portal_backend.Service.Token.{parse}

pub record Principal : Type 0 where
  pub user_id : ℕ
  pub username : Text
  pub email : Text
  pub role_id : ℕ
  pub role_code : RoleCode
  pub session_id : ℕ
  pub permissions : List Text

-- a failure of the revocation store is logged, and the session taken as not revoked
abbrev pub or_false : Outcome Bool → Outcome Bool
or_false (ok b) = ok b
or_false (err e) = ok false
or_false panic = panic

unfoldable pub check_revoked : ℕ → M Bool
check_revoked i w = let (r, w') = Sessions.is_revoked i w in (or_false r, w')

abbrev pub codes_of : List Permission → List Text
codes_of [] = []
codes_of (p ∷ ps) = p.code ∷ codes_of ps

unfoldable pub principal_of : TokenClaims → Role × List Permission → Principal
principal_of claims role = record {
  user_id = claims.user_id;
  username = claims.username;
  email = claims.email;
  role_id = claims.role_id;
  role_code = role.0.code;
  session_id = claims.session_id;
  permissions = codes_of role.1;
}

unfoldable pub authenticate : Text → M Principal
authenticate token = do
  claims ← parse token
  revoked ← check_revoked claims.session_id
  ensure (not revoked) (plain "session is already revoked")
  session ← Sessions.find_active_by_id base_ctx claims.session_id
  ensure (session.user_id == claims.user_id) (plain "session does not belong to user")
  role ← Roles.get_with_permissions base_ctx claims.role_id
  pure (principal_of claims role)

unfoldable pub has_permission : Principal → PermissionCode → Bool
has_permission principal permission =
    any (λ p. text_eq p (codes (permission_text permission))) principal.permissions
