-- ===== src/Service/Auth.antt =====
-- internal/service/auth.go: the links of the frontend, and the helpers that its operations share.
use portal_backend.Prelude.{ℕ, List, ◌∷◌, ◌++◌, [], none}
use portal_backend.Text.{Text, codes}
use portal_backend.Domain.{TokenType}
use portal_backend.Model.{User, UserToken, AuthSession, nil_id}
use portal_backend.World.{World, M, pure, ◌>>◌, log_err, ask}
use portal_backend.Repo.Sessions
pub mod Register
pub mod Login
pub mod Verification
pub mod Passwords
pub mod RefreshTokens
pub mod Logout
pub mod Atomicity

-- `fmt.Sprintf("%s<path>?token=%s", …, url.QueryEscape(rawToken))`
unfoldable pub link : Text → Text → M Text
link path raw = ask (λ w. w.env.frontend_url ++ (path ++ w.env.query_escape raw))

-- a new user token, before its insertion
unfoldable pub new_token : ℕ → TokenType → Text → ℕ → UserToken
new_token user type hash expires = record {
  id = nil_id;
  user_id = user;
  token_type = type;
  token_hash = hash;
  expires_at = expires;
  used_at = none;
  revoked_at = none;
}

-- the loop that marks each session in the revocation store, and only logs a failure
unfoldable pub mark_all_revoked : List AuthSession → M (Unit {0})
mark_all_revoked [] = pure tt
mark_all_revoked (s ∷ ss) = log_err (Sessions.mark_revoked s.id s.expires_at) >> mark_all_revoked ss
