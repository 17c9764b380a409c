-- ===== src/Repo/Closed/Sessions.antt =====
-- A session that is closed stays closed, whatever the repositories of sessions and refresh tokens do:
-- they revoke sessions, or open one under an id that is drawn.
use portal_backend.Prelude.{
  ℕ, ◌≡◌, refl, ◌∙◌, Bool, false, leb, ◌||◌, some, any-update_where_none, any-append_one, ◌==◌,
  arith,
}
use portal_backend.Text.{Text}
use portal_backend.Model.{AuthSession, RefreshToken, nil_id}
use portal_backend.World.{Ctx, ok, err, tick, fresh, moment}
use portal_backend.Errors.{driver}
use portal_backend.World.Keeps.{Keeps, Keeps-query, Keeps-write, if-Both}
use portal_backend.Repo.Sessions
use portal_backend.Repo.Sessions.{is_unrevoked}
use portal_backend.Repo.Closed.{Closed, same_sessions}
use portal_backend.Repo.Refresh

neither : {a b : Bool} → a ≡ false → b ≡ false → (a || b) ≡ false
neither h k = ground arith

not_new : (s : ℕ) (r : AuthSession) → (r.id == s) ≡ false → is_unrevoked s r ≡ false
not_new s r h = ground arith

revoked_row :
    (s : ℕ) (r : AuthSession) (t : ℕ) → is_unrevoked s (record r { revoked_at = some t }) ≡ false
revoked_row s r t = ground arith

module _ (s : ℕ) where
  pub refresh_create-Closed : (c : Ctx) (i : RefreshToken) → Keeps (Closed s) (Refresh.create c i)
  unfolding Refresh.create
  refresh_create-Closed c i = Keeps-write _ _ _ (λ w db h. same_sessions s h refl)

  pub refresh_find_by_token_hash-Closed :
      (c : Ctx) (i : Text) → Keeps (Closed s) (Refresh.find_by_token_hash c i)
  unfolding Refresh.find_by_token_hash
  refresh_find_by_token_hash-Closed c i = Keeps-query _ _

  pub refresh_revoke_by_id-Closed : (c : Ctx) (i : ℕ) → Keeps (Closed s) (Refresh.revoke_by_id c i)
  unfolding Refresh.revoke_by_id Refresh.revoke_where
  refresh_revoke_by_id-Closed c i = Keeps-write _ _ _ (λ w db h. same_sessions s h refl)

  pub refresh_revoke_by_user_id-Closed :
      (c : Ctx) (i : ℕ) → Keeps (Closed s) (Refresh.revoke_by_user_id c i)
  unfolding Refresh.revoke_by_user_id Refresh.revoke_where
  refresh_revoke_by_user_id-Closed c i = Keeps-write _ _ _ (λ w db h. same_sessions s h refl)

  pub refresh_revoke_by_session_id-Closed :
      (c : Ctx) (i : ℕ) → Keeps (Closed s) (Refresh.revoke_by_session_id c i)
  unfolding Refresh.revoke_by_session_id Refresh.revoke_where
  refresh_revoke_by_session_id-Closed c i = Keeps-write _ _ _ (λ w db h. same_sessions s h refl)

  pub refresh_mark_replacement-Closed :
      (c : Ctx) (i : ℕ) (j : ℕ) → Keeps (Closed s) (Refresh.mark_replacement c i j)
  unfolding Refresh.mark_replacement
  refresh_mark_replacement-Closed c i j = Keeps-write _ _ _ (λ w db h. same_sessions s h refl)

  pub sessions_create-Closed : (c : Ctx) (i : AuthSession) → Keeps (Closed s) (Sessions.create c i)
  unfolding Sessions.create
  sessions_create-Closed c i = Keeps-write _ _ _ (λ w db h. record {
    not_drawn = h.not_drawn;
    none_left =
        any-append_one (is_unrevoked s) db.auth_sessions (record i { id = fresh w })
        ∙ neither h.none_left (not_new s (record i { id = fresh w }) (h.not_drawn w.step));
  })

  pub sessions_find_active_by_id-Closed :
      (c : Ctx) (i : ℕ) → Keeps (Closed s) (Sessions.find_active_by_id c i)
  unfolding Sessions.find_active_by_id
  sessions_find_active_by_id-Closed c i = Keeps-query _ _

  pub sessions_revoke_by_id-Closed :
      (c : Ctx) (i : ℕ) → Keeps (Closed s) (Sessions.revoke_by_id c i)
  unfolding Sessions.revoke_by_id
  sessions_revoke_by_id-Closed c i = Keeps-write _ _ _ (λ w db h. record {
    not_drawn = h.not_drawn;
    none_left =
        any-update_where_none _ (is_unrevoked s) _ db.auth_sessions
          (λ r p q. revoked_row s r (moment w)) h.none_left;
  })

  pub sessions_revoke_all_by_user_id-Closed :
      (c : Ctx) (i : ℕ) → Keeps (Closed s) (Sessions.revoke_all_by_user_id c i)
  unfolding Sessions.revoke_all_by_user_id
  sessions_revoke_all_by_user_id-Closed c i = Keeps-write _ _ _ (λ w db h. record {
    not_drawn = h.not_drawn;
    none_left =
        any-update_where_none _ (is_unrevoked s) _ db.auth_sessions
          (λ r p q. revoked_row s r (moment w)) h.none_left;
  })

  pub sessions_list_active_by_user_id-Closed :
      (c : Ctx) (i : ℕ) → Keeps (Closed s) (Sessions.list_active_by_user_id c i)
  unfolding Sessions.list_active_by_user_id
  sessions_list_active_by_user_id-Closed c i = Keeps-query _ _

  pub mark_revoked-Closed : (i e : ℕ) → Keeps (Closed s) (Sessions.mark_revoked i e)
  unfolding Sessions.mark_revoked
  mark_revoked-Closed i e = record {
    at = λ w h.
        let o = ok tt in
        if-Both (Closed s) {A = Unit {0}} (i == nil_id) (o, w) _ h
          (if-Both (Closed s) {A = Unit {0}} (leb e (moment w)) (o, tick w) _ h
            (if-Both (Closed s) {A = Unit {0}} (w.env.fault w.step) (err driver, tick w) _ h h));
  }

pub ruleset session_statements = (
  refresh_create-Closed, refresh_find_by_token_hash-Closed, refresh_revoke_by_id-Closed,
  refresh_revoke_by_user_id-Closed, refresh_revoke_by_session_id-Closed,
  refresh_mark_replacement-Closed, sessions_create-Closed, sessions_find_active_by_id-Closed,
  sessions_revoke_by_id-Closed, sessions_revoke_all_by_user_id-Closed,
  sessions_list_active_by_user_id-Closed, mark_revoked-Closed,
)
