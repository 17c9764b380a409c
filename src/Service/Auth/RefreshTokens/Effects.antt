-- ===== src/Service/Auth/RefreshTokens/Effects.antt =====
-- What a refresh that returns has done.
use portal_backend.Prelude.{
  ℕ, suc, ◌≤◌, ◌≡◌, refl, ◌∙◌, Bool, true, false, ◌&&◌, ◌||◌, List, [], ◌∷◌, ◌++◌, Option, none,
  some, any, first, is_none, is_some, update_where, any-update_where, any-update_where_keeps,
  any-append_one, leb, ◌==◌, arith,
}
use portal_backend.Text.{Text, text_eq, trim_space}
use portal_backend.Model.{AuthSession, RefreshToken}
use portal_backend.World.{World, ok, moment}
use portal_backend.World.Returns.{
  Returns, Returns-ok, Returns-bind, Returns-map_err, Returns-query, Returns-write, Returns-ensure,
  Returns-ask, Returns-if, Returns-fail, Returns-pure, Returns-with_tx, Returns-or_none,
  Returns-mono, Returns-always,
}
use portal_backend.Repo.Updates.{found-some}
use portal_backend.Text.Laws.{text_eq_refl}
use portal_backend.Repo.Users
use portal_backend.Repo.Sessions
use portal_backend.Repo.Refresh
use portal_backend.Service.Audit.{AuditMeta}
use portal_backend.Service.Token.{hash_token, generate_hash_token, generate_access_token}
use portal_backend.Service.Auth.Login.{new_refresh_token}
use portal_backend.Service.Auth.RefreshTokens.{
  RefreshResult, rotate_tx, refresh, refresh_with, cap_expiry,
}

none_left : {a b : Bool} → a ≡ false → b ≡ false → (a || b) ≡ false
none_left h k = ground arith

is_some-false : {A : Type 0} → (o : Option A) → is_some o ≡ false → o ≡ none
is_some-false o h = ground arith

or_right : (a : Bool) {b : Bool} → b ≡ true → (a || b) ≡ true
or_right a h = ground arith

cap_expiry-le : (wanted session_end : ℕ) → cap_expiry wanted session_end ≤ session_end
cap_expiry-le wanted session_end = ground arith

-- what the rotation leaves: the old token has no unrevoked row, and the new row is there
rotate_tx-Returns :
    (q : RefreshToken → Bool) (old : ℕ) (row : RefreshToken) (w : World)
    → (w.env.uuid (suc w.step) == old) ≡ false
    → ((i : ℕ) → q (record row { id = i }) ≡ true)
    → ((t : RefreshToken) (i : ℕ) → q (record t { replaced_by_token_id = some i }) ≡ q t)
    → Returns (rotate_tx old row) w (λ _ w'.
      (any (Refresh.is_unrevoked old) w'.tx.refresh_tokens ≡ false)
      × (any q w'.tx.refresh_tokens ≡ true))
unfolding rotate_tx Refresh.revoke_by_id Refresh.create Refresh.mark_replacement
rotate_tx-Returns q old row w fresh_id q_row q_keeps =
    let new : RefreshToken = record row { id = w.env.uuid (suc w.step) } in
    let revoked : List RefreshToken =
      update_where (Refresh.is_unrevoked old) (λ t. record t { revoked_at = some (moment w) })
        w.tx.refresh_tokens in
    Returns-bind (
      Returns-write _ _ _ λ _ was. Returns-bind (
        Returns-write _ _ _ λ made unique. Returns-write _ _ _ λ _ _. (
          any-update_where_keeps _ (Refresh.is_unrevoked old) _ (revoked ++ new ∷ []) (λ t. refl)
              ∙ any-append_one (Refresh.is_unrevoked old) revoked new
              ∙ none_left
                  (any-update_where (Refresh.is_unrevoked old) (Refresh.is_unrevoked old) _
                    w.tx.refresh_tokens (λ t h. ground arith) (λ t h. h))
                  (ground arith),
          any-update_where_keeps _ q _ (revoked ++ new ∷ []) (λ t. q_keeps t made.id)
              ∙ any-append_one q revoked new
              ∙ or_right (any q revoked) (q_row _),
        )))

-- the row that follows a token in a session: of the same session, with the hash of the token that
-- is handed out, not revoked, and not outliving the session
abbrev pub is_successor : World → AuthSession → Text → RefreshToken → Bool
is_successor w s token t =
    t.session_id == s.id
    && text_eq t.token_hash (w.env.sha256_hex token)
    && is_none t.revoked_at
    && leb t.expires_at s.expires_at

abbrev pub stored : World → Text → Option RefreshToken
stored w input =
    first (λ t. text_eq t.token_hash (w.env.sha256_hex (trim_space input))) w.base.refresh_tokens

-- What a refresh with `input` that returned `r` has done.
abbrev pub Rotated : World → Text → RefreshResult → World → Type 0
Rotated w input r w' =
    (t : RefreshToken) × (stored w input ≡ some t)
    × (t.revoked_at ≡ none)
    × (s : AuthSession) × (first
          (Sessions.is_active_id (w.env.clock (suc (suc (suc w.step)))) t.session_id)
          w.base.auth_sessions
        ≡ some s)
    × (any (Refresh.is_unrevoked t.id) w'.base.refresh_tokens ≡ false)
    × (any (is_successor w s r.refresh_token) w'.base.refresh_tokens ≡ true)

successor_row :
    (w : World) (s : AuthSession) (token : Text) (user wanted i : ℕ)
    → is_successor w s token
        (record (new_refresh_token s.id user
          (w.env.sha256_hex token)
          (cap_expiry wanted s.expires_at)) { id = i })
      ≡ true
unfolding new_refresh_token
successor_row w s token user wanted i =
    let same_text = text_eq_refl (w.env.sha256_hex token) in ground arith

-- what refresh_with leaves, for the stored token `t`
abbrev RotatedRow : World → RefreshToken → RefreshResult → World → Type 0
RotatedRow w t r w' =
    (s : AuthSession) × (first (Sessions.is_active_id (w.env.clock (suc w.step)) t.session_id)
        w.base.auth_sessions
      ≡ some s)
    × (any (Refresh.is_unrevoked t.id) w'.base.refresh_tokens ≡ false)
    × (any (is_successor w s r.refresh_token) w'.base.refresh_tokens ≡ true)

refresh_with-Returns :
    (t : RefreshToken) (w : World)
    → ((n : ℕ) → (w.env.uuid n == t.id) ≡ false)
    → Returns (refresh_with t) w (RotatedRow w t)
unfolding refresh_with Sessions.find_active_by_id Users.find_by_id generate_hash_token
    generate_access_token hash_token new_refresh_token
refresh_with-Returns t w fresh_ids = Returns-bind (
    Returns-ask _ (
      Returns-bind (
        Returns-ensure _ _ λ alive. Returns-bind (
          Returns-map_err _ _ (
            Returns-query _ _ λ s is_session. Returns-bind (
              Returns-map_err _ _ (
                Returns-query _ _ λ user is_user. Returns-bind (
                  Returns-ensure _ _ λ _. Returns-bind (
                    Returns-ensure _ _ λ _. Returns-bind (
                      Returns-bind (
                        Returns-ask _ (
                          Returns-bind (
                            Returns-or_none _ _ λ token _. Returns-bind (
                              Returns-ask _ (
                                Returns-pure (
                                  Returns-bind (
                                    Returns-ask _ (
                                      Returns-bind (
                                        Returns-map_err _ _ (
                                          Returns-bind (
                                            Returns-ask _ (
                                              Returns-or_none _ _ λ access _. Returns-bind (
                                                Returns-map_err _ _ (
                                                  Returns-with_tx _ (
                                                    Returns-mono
                                                      (rotate_tx-Returns (is_successor w s token)
                                                        t.id _ _ (fresh_ids _)
                                                        (successor_row w s token user.id _)
                                                        (λ row i. refl))
                                                      λ _ w1 rotated. Returns-bind (
                                                        Returns-ask _ (
                                                          Returns-pure (
                                                            s,
                                                            found-some _ s is_session,
                                                            rotated.0,
                                                            rotated.1,
                                                          ))))))))))))))))))))))))))))

refresh-Returns :
    (meta : Option AuditMeta) (input : Text) (w : World)
    → ((t : RefreshToken) (n : ℕ) → stored w input ≡ some t → (w.env.uuid n == t.id) ≡ false)
    → Returns (refresh meta input) w (Rotated w input)
unfolding refresh Refresh.find_by_token_hash hash_token
refresh-Returns meta input w fresh_ids = Returns-bind (
    Returns-ensure _ _ λ _. Returns-bind (
      Returns-ask _ (
        Returns-bind (
          Returns-map_err _ _ (
            Returns-query _ _ λ t is_token.
              Returns-if _ _ _ (λ was_revoked. Returns-bind (Returns-always _ λ _. Returns-fail))
                λ not_revoked.
                  Returns-mono
                    (refresh_with-Returns t _ (λ n. fresh_ids t n (found-some _ t is_token)))
                    λ r w' rotated. (
                      t,
                      found-some _ t is_token,
                      is_some-false _ not_revoked,
                      rotated.0,
                      rotated.1,
                      rotated.2,
                      rotated.3,
                    ))))))

-- Where a refresh returns, and no uuid that is drawn is the id of the stored token, its trimmed
-- input has the hash of a stored token that was not revoked, of a session that was active. No
-- unrevoked row of that token is left, and the token that is handed out is stored, unrevoked, in the
-- same session, and does not outlive the session.
pub refresh_rotates :
    (meta : Option AuditMeta) (input : Text) (w : World) (r : RefreshResult) (w' : World)
    → ((t : RefreshToken) (n : ℕ) → stored w input ≡ some t → (w.env.uuid n == t.id) ≡ false)
    → refresh meta input w ≡ (ok r, w')
    → Rotated w input r w'
refresh_rotates meta input w r w' fresh_ids =
    Returns-ok r w' (refresh-Returns meta input w fresh_ids)
