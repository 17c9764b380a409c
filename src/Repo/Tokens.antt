-- ===== src/Repo/Tokens.antt =====
-- internal/repository/impl/user_token_repository.go
use portal_backend.Prelude.{
  ℕ, Bool, ◌&&◌, ◌∷◌, ◌++◌, [], some, any, first, update_where, is_none, ltb, ◌==◌, if◌then◌else◌,
}
use portal_backend.Text.{Text, text_eq}
use portal_backend.Errors.{driver}
use portal_backend.Domain.{TokenType, token_type_eq}
use portal_backend.Model.{UserToken}
use portal_backend.World.{ok, err, M, Ctx, moment, fresh, query, write}
use portal_backend.Repo.{found, affecting}

unfoldable pub create : Ctx → UserToken → M UserToken
create c t =
    write c
      (λ w db.
        if any (λ u. text_eq u.token_hash t.token_hash) db.user_tokens
        then err driver
        else ok (record t { id = fresh w }))
      (λ w db. record db { user_tokens = db.user_tokens ++ record t { id = fresh w } ∷ [] })

-- WHERE used_at IS NULL AND revoked_at IS NULL AND expires_at > now
abbrev pub is_valid : ℕ → UserToken → Bool
is_valid now t = is_none t.used_at && is_none t.revoked_at && ltb now t.expires_at

unfoldable pub find_valid_token : Ctx → Text → TokenType → M UserToken
find_valid_token c hash type = query c (λ w db. found (
    first
      (λ t. text_eq t.token_hash hash && token_type_eq t.token_type type && is_valid (moment w) t)
      db.user_tokens))

abbrev pub is_unused : ℕ → UserToken → Bool
is_unused i t = t.id == i && is_none t.used_at

unfoldable pub mark_used : Ctx → ℕ → M (Unit {0})
mark_used c i =
    write c (λ w db. affecting (is_unused i) db.user_tokens)
      (λ w db. record db {
        user_tokens =
            update_where (is_unused i) (λ t. record t { used_at = some (moment w) }) db.user_tokens;
      })

abbrev pub is_unrevoked : ℕ → UserToken → Bool
is_unrevoked i t = t.id == i && is_none t.revoked_at

unfoldable pub revoke : Ctx → ℕ → M (Unit {0})
revoke c i =
    write c (λ w db. affecting (is_unrevoked i) db.user_tokens)
      (λ w db. record db {
        user_tokens =
            update_where (is_unrevoked i) (λ t. record t { revoked_at = some (moment w) })
              db.user_tokens;
      })

abbrev pub is_valid_of : ℕ → ℕ → TokenType → UserToken → Bool
is_valid_of now user type t = t.user_id == user && token_type_eq t.token_type type && is_valid now t

-- no row affected is no error here
unfoldable pub revoke_by_user_and_type : Ctx → ℕ → TokenType → M (Unit {0})
revoke_by_user_and_type c user type =
    write c (λ w db. ok tt)
      (λ w db. record db {
        user_tokens =
            update_where (is_valid_of (moment w) user type)
              (λ t. record t { revoked_at = some (moment w) }) db.user_tokens;
      })
