-- ===== src/Repo/Refresh.antt =====
-- internal/repository/impl/refresh_token_repository.go
use portal_backend.Prelude.{
  ℕ, Bool, ◌&&◌, ◌∷◌, ◌++◌, [], some, any, first, update_where, is_none, ◌==◌, if◌then◌else◌,
}
use portal_backend.Text.{Text, text_eq}
use portal_backend.Errors.{driver}
use portal_backend.Model.{RefreshToken}
use portal_backend.World.{ok, err, M, Ctx, moment, fresh, query, write}
use portal_backend.Repo.{found, affecting}

unfoldable pub create : Ctx → RefreshToken → M RefreshToken
create c t =
    write c
      (λ w db.
        if any (λ u. text_eq u.token_hash t.token_hash) db.refresh_tokens
        then err driver
        else ok (record t { id = fresh w }))
      (λ w db. record db { refresh_tokens = db.refresh_tokens ++ record t { id = fresh w } ∷ [] })

unfoldable pub find_by_token_hash : Ctx → Text → M RefreshToken
find_by_token_hash c hash =
    query c (λ w db. found (first (λ t. text_eq t.token_hash hash) db.refresh_tokens))

-- the three revocations: WHERE … AND revoked_at IS NULL
unfoldable pub revoke_where : Ctx → (RefreshToken → Bool) → M (Unit {0})
revoke_where c p =
    write c (λ w db. affecting p db.refresh_tokens)
      (λ w db. record db {
        refresh_tokens =
            update_where p (λ t. record t { revoked_at = some (moment w) }) db.refresh_tokens;
      })

abbrev pub is_unrevoked : ℕ → RefreshToken → Bool
is_unrevoked i t = t.id == i && is_none t.revoked_at

abbrev pub is_unrevoked_of_user : ℕ → RefreshToken → Bool
is_unrevoked_of_user i t = t.user_id == i && is_none t.revoked_at

abbrev pub is_unrevoked_of_session : ℕ → RefreshToken → Bool
is_unrevoked_of_session i t = t.session_id == i && is_none t.revoked_at

unfoldable pub revoke_by_id : Ctx → ℕ → M (Unit {0})
unfolding revoke_where
revoke_by_id c i = revoke_where c (is_unrevoked i)

unfoldable pub revoke_by_user_id : Ctx → ℕ → M (Unit {0})
unfolding revoke_where
revoke_by_user_id c i = revoke_where c (is_unrevoked_of_user i)

unfoldable pub revoke_by_session_id : Ctx → ℕ → M (Unit {0})
unfolding revoke_where
revoke_by_session_id c i = revoke_where c (is_unrevoked_of_session i)

unfoldable pub mark_replacement : Ctx → ℕ → ℕ → M (Unit {0})
mark_replacement c i by =
    write c (λ w db. affecting (λ t. t.id == i) db.refresh_tokens)
      (λ w db. record db {
        refresh_tokens =
            update_where (λ t. t.id == i) (λ t. record t { replaced_by_token_id = some by })
              db.refresh_tokens;
      })
