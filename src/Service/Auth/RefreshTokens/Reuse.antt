-- ===== src/Service/Auth/RefreshTokens/Reuse.antt =====
-- What the answer to a refresh token that was used before has done.
use portal_backend.Prelude.{ℕ, suc, ◌≡◌, false, List, Option, some, any, arith, ◌==◌}
use portal_backend.Errors.{not_found}
use portal_backend.Model.{AuthSession, RefreshToken, nil_id}
use portal_backend.World.{World, ok, err, tx_ctx, base_ctx, moment, pure, unless_not_found}
use portal_backend.World.Returns.{
  Returns, Returns-ok, Returns-bind, Returns-map_err, Returns-query, Returns-write, Returns-if,
  Returns-with_tx, Returns-log_err, Returns-unless_not_found, Returns-mono, Returns-always,
}
use portal_backend.Repo.Updates.{not_found-write}
use portal_backend.Repo.Sessions
use portal_backend.Repo.Refresh
use portal_backend.Domain.{refresh_token_reuse_detected}
use portal_backend.Service.Audit.{AuditMeta, log_with_metadata}
use portal_backend.Service.Tables.{log_with_metadata-SameTables}
use portal_backend.Service.Auth.{mark_all_revoked}
use portal_backend.Service.Auth.Logout.Effects.{
  UserClosed, revoked_active, no_active, revoked_refresh, mark_all_revoked-TxOnly,
}
use portal_backend.Service.Auth.RefreshTokens.{
  handle_refresh_token_reuse, revoke_user_tx, bare_user, reuse_fields,
}

none_unrevoked :
    (now user : ℕ) (w : World)
    → any (Sessions.is_active_of now user) w.tx.auth_sessions ≡ false
    → (Refresh.revoke_by_user_id tx_ctx user w).0 ≡ err not_found
    → UserClosed now user (Refresh.revoke_by_user_id tx_ctx user w).1.tx
unfolding Refresh.revoke_by_user_id Refresh.revoke_where
none_unrevoked now user w closed e =
    let (none_left, same) =
      not_found-write tx_ctx (λ _. Refresh.is_unrevoked_of_user user) (λ db. db.refresh_tokens) _ w
        e in
    rw same (closed, none_left)

revoke_refresh-Returns :
    (now user : ℕ) (w : World)
    → any (Sessions.is_active_of now user) w.tx.auth_sessions ≡ false
    → Returns
        (unless_not_found (Refresh.revoke_by_user_id tx_ctx user))
        w
        (λ _ w'. UserClosed now user w'.tx)
unfolding Refresh.revoke_by_user_id Refresh.revoke_where
revoke_refresh-Returns now user w closed =
    Returns-unless_not_found _
      (Returns-write _ _ _ λ _ _.
        (closed, revoked_refresh (Refresh.is_unrevoked_of_user user) _ _ (λ r. ground arith)))
      (none_unrevoked now user w closed)

revoke_user_tx-Returns :
    (user : ℕ) (w : World)
    → Returns (revoke_user_tx user) w (λ _ w'. UserClosed (moment w) user w'.tx)
unfolding revoke_user_tx Sessions.revoke_all_by_user_id
revoke_user_tx-Returns user w = Returns-bind (
    Returns-unless_not_found _
      (Returns-write _ _ _ λ _ _.
        revoke_refresh-Returns (moment w) user _
          (revoked_active (moment w) user (moment w) w.tx.auth_sessions))
      (λ e. revoke_refresh-Returns (moment w) user _ (no_active user w e)))

after_revoke-closed :
    (meta : Option AuditMeta) (t : RefreshToken) (now : ℕ) (ss : List AuthSession) (w : World)
    → UserClosed now t.user_id w.base
    → UserClosed now t.user_id
        (log_with_metadata base_ctx meta refresh_token_reuse_detected
          (some (bare_user t.user_id))
          (some (bare_user t.user_id))
          (some (reuse_fields t))
          (mark_all_revoked ss w).1).1.base
after_revoke-closed meta t now ss w closed =
    let w1 = (mark_all_revoked ss w).1 in
    let user = some (bare_user t.user_id) in
    let same =
      (log_with_metadata-SameTables base_ctx meta refresh_token_reuse_detected user user
        (some (reuse_fields t)) w1).0 in
    rw (same.auth_sessions, same.refresh_tokens, (mark_all_revoked-TxOnly ss).at w) closed

reuse-Returns :
    (meta : Option AuditMeta) (t : RefreshToken) (w : World)
    → (t.user_id == nil_id) ≡ false
    → Returns
        (handle_refresh_token_reuse meta t)
        w
        (λ _ w'. UserClosed (w.env.clock (suc (suc w.step))) t.user_id w'.base)
unfolding handle_refresh_token_reuse Sessions.list_active_by_user_id
reuse-Returns meta t w named =
    Returns-if (t.user_id == nil_id) (pure tt) _ (λ h. ground (arith, h, named))
      λ _. Returns-bind (
        Returns-map_err _ _ (
          Returns-query _ _ λ sessions _. Returns-bind (
            Returns-with_tx _ (
              Returns-mono (revoke_user_tx-Returns t.user_id _) λ _ w1 closed. Returns-bind (
                Returns-always _
                  λ _. Returns-log_err _ (after_revoke-closed meta t _ sessions _ closed))))))

-- Where the answer to a refresh token that was used before returns, and the token is of a user, no
-- session of the user was active any more at the time of the revocation, and every refresh token of
-- the user is revoked.
pub reuse_closes :
    (meta : Option AuditMeta) (t : RefreshToken) (w w' : World)
    → (t.user_id == nil_id) ≡ false
    → handle_refresh_token_reuse meta t w ≡ (ok tt, w')
    → UserClosed (w.env.clock (suc (suc w.step))) t.user_id w'.base
reuse_closes meta t w w' named = Returns-ok tt w' (reuse-Returns meta t w named)
