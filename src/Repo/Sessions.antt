-- ===== src/Repo/Sessions.antt =====
-- internal/repository/impl/auth_session_repository.go, and the revocation store of
-- internal/infrastructure/redis/session_revocation_store.go
use portal_backend.Prelude.{
  ℕ, Bool, false, ◌&&◌, List, ◌∷◌, ◌++◌, [], some, any, first, select, update_where, is_none, ltb,
  leb, ◌==◌, if◌then◌else◌,
}
use portal_backend.Errors.{driver}
use portal_backend.Model.{AuthSession, nil_id}
use portal_backend.World.{ok, err, M, Ctx, moment, fresh, tick, query, write}
use portal_backend.Repo.{found, affecting}

unfoldable pub create : Ctx → AuthSession → M AuthSession
create c s =
    write c (λ w db. ok (record s { id = fresh w }))
      (λ w db. record db { auth_sessions = db.auth_sessions ++ record s { id = fresh w } ∷ [] })

abbrev pub is_active : ℕ → AuthSession → Bool
is_active now s = is_none s.revoked_at && ltb now s.expires_at

abbrev pub is_active_id : ℕ → ℕ → AuthSession → Bool
is_active_id now i s = s.id == i && is_active now s

unfoldable pub find_active_by_id : Ctx → ℕ → M AuthSession
find_active_by_id c i = query c (λ w db. found (first (is_active_id (moment w) i) db.auth_sessions))

abbrev pub is_unrevoked : ℕ → AuthSession → Bool
is_unrevoked i s = s.id == i && is_none s.revoked_at

unfoldable pub revoke_by_id : Ctx → ℕ → M (Unit {0})
revoke_by_id c i =
    write c (λ w db. affecting (is_unrevoked i) db.auth_sessions)
      (λ w db. record db {
        auth_sessions =
            update_where (is_unrevoked i) (λ s. record s { revoked_at = some (moment w) })
              db.auth_sessions;
      })

abbrev pub is_active_of : ℕ → ℕ → AuthSession → Bool
is_active_of now user s = s.user_id == user && is_active now s

unfoldable pub revoke_all_by_user_id : Ctx → ℕ → M (Unit {0})
revoke_all_by_user_id c user =
    write c (λ w db. affecting (is_active_of (moment w) user) db.auth_sessions)
      (λ w db. record db {
        auth_sessions =
            update_where (is_active_of (moment w) user)
              (λ s. record s { revoked_at = some (moment w) }) db.auth_sessions;
      })

unfoldable pub list_active_by_user_id : Ctx → ℕ → M (List AuthSession)
list_active_by_user_id c user =
    query c (λ w db. ok (select (is_active_of (moment w) user) db.auth_sessions))

-- MarkRevoked: nothing is stored for the nil id, nor for a session that has expired already. The
-- key lives until the session's end.
unfoldable pub mark_revoked : ℕ → ℕ → M (Unit {0})
mark_revoked i expires w =
    if i == nil_id
    then (ok tt, w)
    else if leb expires (moment w)
    then (ok tt, tick w)
    else if w.env.fault w.step
    then (err driver, tick w)
    else (ok tt, record (tick w) { revoked = (i, expires) ∷ w.revoked })

-- IsRevoked: a key of the session that has not expired exists.
unfoldable pub is_revoked : ℕ → M Bool
is_revoked i w =
    if i == nil_id
    then (ok false, w)
    else if w.env.fault w.step
    then (err driver, tick w)
    else (ok (any (λ k. k.0 == i && ltb (moment w) k.1) w.revoked), tick w)
