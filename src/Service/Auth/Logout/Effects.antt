-- ===== src/Service/Auth/Logout/Effects.antt =====
-- What a logout that returns has done.
use portal_backend.Prelude.{
  ℕ, suc, ◌≡◌, Bool, false, List, [], ◌∷◌, Option, some, any, update_where, any-update_where, arith,
}
use portal_backend.Errors.{not_found}
use portal_backend.Model.{Db, AuthSession, RefreshToken}
use portal_backend.World.{World, ok, err, tick, tx_ctx, base_ctx, moment}
use portal_backend.World.Atomic.{TxOnly, TxOnly-pure, TxOnly-bind, TxOnly-log_err}
use portal_backend.World.Returns.{
  Returns, Returns-ok, Returns-bind, Returns-map_err, Returns-query, Returns-write, Returns-ensure,
  Returns-with_tx, Returns-or_none, Returns-log_err, Returns-unless_not_found, Returns-mono,
  Returns-always,
}
use portal_backend.Repo.Updates.{not_found-write}
use portal_backend.Repo.Sessions
use portal_backend.Repo.Refresh
use portal_backend.Domain.{logout as action_logout}
use portal_backend.Service.Audit.{AuditMeta, AuditUser, log}
use portal_backend.Service.Tables.{log-SameTables}
use portal_backend.Service.Auth.{mark_all_revoked}
use portal_backend.Service.Auth.Logout.{logout, logout_tx, logout_all, logout_all_tx}

revoked_sessions :
    (s t : ℕ) (rows : List AuthSession)
    → any
        (Sessions.is_unrevoked s)
        (update_where (Sessions.is_unrevoked s) (λ r. record r { revoked_at = some t }) rows)
      ≡ false
revoked_sessions s t rows =
    any-update_where (Sessions.is_unrevoked s) (Sessions.is_unrevoked s) _ rows
      (λ r h. ground arith) (λ r h. h)

pub revoked_refresh :
    (p : RefreshToken → Bool) (t : ℕ) (rows : List RefreshToken)
    → ((r : RefreshToken) → p (record r { revoked_at = some t }) ≡ false)
    → any p (update_where p (λ r. record r { revoked_at = some t }) rows) ≡ false
revoked_refresh p t rows h = any-update_where p p _ rows (λ r _. h r) (λ r k. k)

-- No session of this id and no refresh token of it is left unrevoked.
abbrev pub SessionClosed : ℕ → Db → Type 0
SessionClosed s db =
    (any (Sessions.is_unrevoked s) db.auth_sessions ≡ false)
    × (any (Refresh.is_unrevoked_of_session s) db.refresh_tokens ≡ false)

none_to_revoke :
    (s : ℕ) (w : World)
    → (Sessions.revoke_by_id tx_ctx s w).0 ≡ err not_found
    → any (Sessions.is_unrevoked s) (Sessions.revoke_by_id tx_ctx s w).1.tx.auth_sessions ≡ false
unfolding Sessions.revoke_by_id
none_to_revoke s w e =
    let (none_left, same) =
      not_found-write tx_ctx (λ _. Sessions.is_unrevoked s) (λ db. db.auth_sessions) _ w e in
    rw same none_left

logout_tx-Returns : (s : ℕ) (w : World) → Returns (logout_tx s) w (λ _ w'. SessionClosed s w'.tx)
unfolding logout_tx Sessions.revoke_by_id Refresh.revoke_by_session_id
logout_tx-Returns s w = Returns-bind (
    Returns-unless_not_found _
      (Returns-write _ _ _ λ _ _. Returns-write _ _ _ λ _ _. (
        revoked_sessions s (moment w) w.tx.auth_sessions,
        revoked_refresh (Refresh.is_unrevoked_of_session s) _ _ (λ r. ground arith),
      ))
      λ e. Returns-write _ _ _ λ _ _. (
        none_to_revoke s w e,
        revoked_refresh (Refresh.is_unrevoked_of_session s) _ _ (λ r. ground arith),
      ))

mark_revoked-base : (i e : ℕ) (w : World) → (Sessions.mark_revoked i e w).1.base ≡ w.base
unfolding Sessions.mark_revoked
mark_revoked-base i e w = ground arith

-- the revocation store and the audit log do not touch the two tables
after_logout-closed :
    (meta : Option AuditMeta) (actor : Option AuditUser) (s i e : ℕ) (w : World)
    → SessionClosed s w.base
    → let w1 = (Sessions.mark_revoked i e w).1 in
      SessionClosed s (log base_ctx meta action_logout actor actor w1).1.base
after_logout-closed meta actor s i e w closed =
    let w1 = (Sessions.mark_revoked i e w).1 in
    let same = (log-SameTables base_ctx meta action_logout actor actor w1).0 in
    rw (same.auth_sessions, same.refresh_tokens, mark_revoked-base i e w) closed

logout-Returns :
    (meta : Option AuditMeta) (actor : Option AuditUser) (s : ℕ) (w : World)
    → Returns (logout meta actor s) w (λ _ w'. SessionClosed s w'.base)
unfolding logout
logout-Returns meta actor s w = Returns-bind (
    Returns-or_none _ actor λ a _. Returns-bind (
      Returns-ensure _ _ λ _. Returns-bind (
        Returns-map_err _ _ (
          Returns-always _ λ session. Returns-bind (
            Returns-map_err _ _ (
              Returns-with_tx _ (
                Returns-mono (logout_tx-Returns s _) λ _ w1 closed. Returns-bind (
                  Returns-log_err _ (
                    Returns-log_err _ (
                      after_logout-closed meta actor s session.id session.expires_at _
                        closed))))))))))

-- Where a logout returns, its session is revoked, and every refresh token of the session.
pub logout_closes :
    (meta : Option AuditMeta) (actor : Option AuditUser) (s : ℕ) (w w' : World)
    → logout meta actor s w ≡ (ok tt, w')
    → SessionClosed s w'.base
logout_closes meta actor s w w' = Returns-ok tt w' (logout-Returns meta actor s w)

-- At a time, no session of the user is active, and no refresh token of the user is unrevoked.
abbrev pub UserClosed : ℕ → ℕ → Db → Type 0
UserClosed now user db =
    (any (Sessions.is_active_of now user) db.auth_sessions ≡ false)
    × (any (Refresh.is_unrevoked_of_user user) db.refresh_tokens ≡ false)

pub revoked_active :
    (now user t : ℕ) (rows : List AuthSession)
    → any
        (Sessions.is_active_of now user)
        (update_where (Sessions.is_active_of now user) (λ r. record r { revoked_at = some t }) rows)
      ≡ false
revoked_active now user t rows =
    any-update_where (Sessions.is_active_of now user) (Sessions.is_active_of now user) _ rows
      (λ r h. ground arith) (λ r h. h)

pub no_active :
    (user : ℕ) (w : World)
    → (Sessions.revoke_all_by_user_id tx_ctx user w).0 ≡ err not_found
    → any
        (Sessions.is_active_of (moment w) user)
        (Sessions.revoke_all_by_user_id tx_ctx user w).1.tx.auth_sessions
      ≡ false
unfolding Sessions.revoke_all_by_user_id
no_active user w e =
    let (none_left, same) =
      not_found-write tx_ctx (λ v. Sessions.is_active_of (moment v) user) (λ db. db.auth_sessions) _
        w e in
    rw same none_left

logout_all_tx-Returns :
    (user : ℕ) (w : World)
    → Returns (logout_all_tx user) w (λ _ w'. UserClosed (moment w) user w'.tx)
unfolding logout_all_tx Sessions.revoke_all_by_user_id Refresh.revoke_by_user_id
logout_all_tx-Returns user w = Returns-bind (
    Returns-unless_not_found _
      (Returns-write _ _ _ λ _ _. Returns-write _ _ _ λ _ _. (
        revoked_active (moment w) user (moment w) w.tx.auth_sessions,
        revoked_refresh (Refresh.is_unrevoked_of_user user) _ _ (λ r. ground arith),
      ))
      λ e. Returns-write _ _ _ λ _ _. (
        no_active user w e,
        revoked_refresh (Refresh.is_unrevoked_of_user user) _ _ (λ r. ground arith),
      ))

pub mark_all_revoked-TxOnly : (ss : List AuthSession) → TxOnly (mark_all_revoked ss)
unfolding mark_all_revoked
mark_all_revoked-TxOnly [] = TxOnly-pure tt
mark_all_revoked-TxOnly (s ∷ ss) =
    TxOnly-bind _ _ (TxOnly-log_err _ (record { at = mark_revoked-base s.id s.expires_at }))
      (λ _. mark_all_revoked-TxOnly ss)

after_logout_all-closed :
    (meta : Option AuditMeta) (actor : Option AuditUser) (now asked user : ℕ)
    → asked ≡ user
    → (ss : List AuthSession) → (w : World) → UserClosed now user w.base
    → let w1 = (mark_all_revoked ss w).1 in
      UserClosed now asked (log base_ctx meta action_logout actor actor w1).1.base
after_logout_all-closed meta actor now asked user is_user ss w closed =
    let w1 = (mark_all_revoked ss w).1 in
    let same = (log-SameTables base_ctx meta action_logout actor actor w1).0 in
    rw (is_user, same.auth_sessions, same.refresh_tokens, (mark_all_revoked-TxOnly ss).at w) closed

id_of_some : (a b : AuditUser) → some a ≡ some b → a.id ≡ b.id
id_of_some a b same = ground arith

logout_all-Returns :
    (meta : Option AuditMeta) (a : AuditUser) (w : World)
    → Returns
        (logout_all meta (some a))
        w
        (λ _ w'. UserClosed (w.env.clock (suc (suc w.step))) a.id w'.base)
unfolding logout_all Sessions.list_active_by_user_id
logout_all-Returns meta a w = Returns-bind (
    Returns-or_none _ (some a) λ b same. Returns-bind (
      Returns-ensure _ _ λ _. Returns-bind (
        Returns-map_err _ _ (
          Returns-query _ _ λ sessions _. Returns-bind (
            Returns-map_err _ _ (
              Returns-with_tx _ (
                Returns-mono (logout_all_tx-Returns _ _) λ _ w1 closed. Returns-bind (
                  Returns-always _ λ _. Returns-log_err _ (
                    after_logout_all-closed meta (some a) (moment (tick (tick w))) a.id b.id
                      (id_of_some a b same) sessions _ closed)))))))))

-- Where a logout from all devices returns, no session of the user was active any more at the time
-- of the revocation, and every refresh token of the user is revoked.
pub logout_all_closes :
    (meta : Option AuditMeta) (a : AuditUser) (w w' : World)
    → logout_all meta (some a) w ≡ (ok tt, w')
    → UserClosed (w.env.clock (suc (suc w.step))) a.id w'.base
logout_all_closes meta a w w' = Returns-ok tt w' (logout_all-Returns meta a w)
