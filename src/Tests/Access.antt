-- ===== src/Tests/Access.antt =====
-- Runs of the authentication of internal/infrastructure/security.
use portal_backend.Prelude.{false, refl, [], ◌∷◌, some}
use portal_backend.Text.{codes}
use portal_backend.Domain.{user_list, permission_text}
use portal_backend.Model.{TokenClaims}
use portal_backend.World
use portal_backend.World.{World}
use portal_backend.Repo.Sessions
use portal_backend.Repo.Roles
use portal_backend.Service.Token
use portal_backend.Access.Authenticator
use portal_backend.Access.Authenticator.{Principal}
use portal_backend.Access.Gate.{Admitted, authenticate_admits}
use portal_backend.Tests.{db, env_with, returned}

abbrev pub claims : TokenClaims
claims = record {
  user_id = 10;
  session_id = 20;
  username = [];
  email = [];
  role_id = 3;
  role_code = [];
}

-- a world whose issuer accepts every token, and whose role has the permission to list users
abbrev pub guarded : World
guarded = record {
  env = record (env_with (λ n. false)) { verify = λ n s. some claims };
  step = 0;
  base = record db {
    permissions = record { id = 7; code = codes (permission_text user_list); name = [] } ∷ [];
  };
  tx = db;
  revoked = [];
}

abbrev run : World.Outcome Principal × World
run = Authenticator.authenticate [] guarded

abbrev caller : Principal
caller =
    returned
      (record {
        user_id = 0;
        username = [];
        email = [];
        role_id = 0;
        role_code = [];
        session_id = 0;
        permissions = [];
      })
      run.0

authenticate_admits_example : Admitted guarded run.1 caller
unfolding Authenticator.authenticate Authenticator.check_revoked Authenticator.principal_of
    Token.parse World.◌>>=◌ World.ask World.query World.or_none World.ensure
    Sessions.find_active_by_id Sessions.is_revoked Roles.get_with_permissions
authenticate_admits_example = authenticate_admits [] guarded caller run.1 refl
