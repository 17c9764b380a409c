-- ===== src/Service/Token.antt =====
-- internal/infrastructure/security/manager.go: the token issuer
use portal_backend.Prelude.{ℕ, ◌+◌, ◌/◌}
use portal_backend.Text.{Text}
use portal_backend.Errors.{driver, plain}
use portal_backend.Model.{TokenClaims, User}
use portal_backend.World.{World, M, moment, pure, ◌>>=◌, ask, or_none}

unfoldable pub generate_access_token : TokenClaims → M Text
generate_access_token claims = do
  signed ← ask (λ w. w.env.sign claims (moment w) (moment w + w.env.access_ttl))
  or_none driver signed

unfoldable pub generate_refresh_token : M Text
generate_refresh_token = do raw ← ask (λ w. w.env.random_hex w.step); or_none driver raw

unfoldable pub parse : Text → M TokenClaims
parse token = do
  claims ← ask (λ w. w.env.verify (moment w) token)
  or_none (plain "invalid token") claims

unfoldable pub hash_token : World → Text → Text
hash_token w raw = w.env.sha256_hex raw

-- int(tokenTTL.Seconds()), of a number of nanoseconds
unfoldable pub expires_in_seconds : World → ℕ
expires_in_seconds w = w.env.access_ttl / 1000000000

-- the hash and the raw token
unfoldable pub generate_hash_token : M (Text × Text)
unfolding hash_token
generate_hash_token = do
  raw ← ask (λ w. w.env.random_hex w.step)
  token ← or_none driver raw
  hash ← ask (λ w. hash_token w token)
  pure (hash, token)

-- the claims that the services ask for
unfoldable pub claims_of : User → ℕ → TokenClaims
claims_of user session = record {
  user_id = user.id;
  session_id = session;
  username = user.username;
  email = user.email;
  role_id = user.role.id;
  role_code = user.role.code;
}
