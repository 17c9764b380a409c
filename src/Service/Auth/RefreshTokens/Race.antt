-- ===== src/Service/Auth/RefreshTokens/Race.antt =====
-- Two requests that refresh the same token, the transaction of one after that of the other.
use portal_backend.Prelude.{ℕ, ◌≡◌, true, false, Option, some, any, ◌==◌, arith}
use portal_backend.Text.{Text}
use portal_backend.Model.{RefreshToken}
use portal_backend.World.{World, Outcome, ok, err, panic, with_tx}
use portal_backend.World.Atomic.{is_ok, TxOnly, TxOnly-bind, Atomic-with_tx}
use portal_backend.World.Returns.{Returns, Post, Returns-bind, Returns-write, Returns-with_tx}
use portal_backend.Repo.Refresh
use portal_backend.Repo.Statements.{
  refresh_revoke_by_id-TxOnly, refresh_create-TxOnly, refresh_mark_replacement-TxOnly,
}
use portal_backend.Service.Audit.{AuditMeta}
use portal_backend.Service.Auth.RefreshTokens.{RefreshResult, rotate_tx, refresh}
use portal_backend.Service.Auth.RefreshTokens.Effects.{stored, refresh_rotates}

never_ok :
    {A : Type 0} (r : Outcome A) (w : World) → Post (λ _ _. true ≡ false) (r, w) → is_ok r ≡ false
never_ok (ok a) w h = h
never_ok (err e) w h = ground arith
never_ok panic w h = ground arith

rotate_tx-revoked :
    (old : ℕ) (row : RefreshToken) (w : World)
    → any (Refresh.is_unrevoked old) w.tx.refresh_tokens ≡ false
    → Returns (rotate_tx old row) w (λ _ _. true ≡ false)
unfolding rotate_tx Refresh.revoke_by_id
rotate_tx-revoked old row w h = Returns-bind (Returns-write _ _ _ λ a affected. cc)

rotate_tx-TxOnly : (old : ℕ) (row : RefreshToken) → TxOnly (rotate_tx old row)
unfolding rotate_tx
rotate_tx-TxOnly old row = TxOnly-bind _ _ (refresh_revoke_by_id-TxOnly old) (λ _.
    TxOnly-bind _ _ (refresh_create-TxOnly row)
      (λ made. refresh_mark_replacement-TxOnly old made.id))

-- After a refresh that returned, where no uuid that is drawn is the id of the stored token, and while
-- the refresh tokens are what it left, the transaction of another request that found the same token
-- before fails, whatever row it would store, and changes nothing: a token has at most one successor.
pub rotation_is_once :
    (meta : Option AuditMeta) (input : Text) (w : World) (r : RefreshResult) (w' v : World)
    (t row : RefreshToken)
    → ((u : RefreshToken) (n : ℕ) → stored w input ≡ some u → (w.env.uuid n == u.id) ≡ false)
    → refresh meta input w ≡ (ok r, w')
    → v.base.refresh_tokens ≡ w'.base.refresh_tokens
    → stored w input ≡ some t
    → (is_ok (with_tx (rotate_tx t.id row) v).0 ≡ false)
      × ((with_tx (rotate_tx t.id row) v).1.base ≡ v.base)
rotation_is_once meta input w r w' v t row fresh_ids refreshed same found =
    let (u, is_stored, live, s, is_session, none_left, made) =
      refresh_rotates meta input w r w' fresh_ids refreshed in
    let same_token : u ≡ t = cc in
    let fails : is_ok (with_tx (rotate_tx t.id row) v).0 ≡ false =
      never_ok _ _
        (Returns-with_tx _
          (rotate_tx-revoked t.id row _ (ground (arith, same_token, none_left, same)))).at in
    (fails, (Atomic-with_tx _ (rotate_tx-TxOnly t.id row)).at v fails)
