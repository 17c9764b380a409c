-- ===== src/Service/Auth/Atomicity.antt =====
-- Operations of internal/service/auth.go whose transaction carries its context, where they fail.
use portal_backend.Prelude.{ℕ, List, [], ◌∷◌, Option, some, none, refl, ◌≡◌, true, false, arith}
use portal_backend.Text.{Text}
use portal_backend.Domain.{TokenType, logout as action_logout}
use portal_backend.Model.{User, AuthSession}
use portal_backend.World
use portal_backend.World.{World, M, tx_ctx, ◌>>=◌, ◌>>◌, pure, ask, log_err}
use portal_backend.World.Atomic.{
  TxOnly, Atomic, Atomic-with_tx, Atomic-bind, Atomic-map_err, Atomic-then_total, Atomic-TxOnly,
  Atomic-if, TxOnly-ask, is_ok, no_panic, is_ok-log_err, is_ok-bind,
}
use portal_backend.Repo.Sessions
use portal_backend.Service.{validate_normalized_email, validate_normalized_username}
use portal_backend.Service.AdminService.Atomicity.{validate_email-TxOnly, validate_username-TxOnly}
use portal_backend.Service.Audit.{AuditMeta, AuditUser}
use portal_backend.Service.Rules.{service_rules}
use portal_backend.Service.Tables.{no_panic-log}
use portal_backend.Service.UserService.{hash_password}
use portal_backend.Service.Auth.{link, mark_all_revoked}
use portal_backend.Service.Auth.Register.{RegisterInput, register, register_tx}
use portal_backend.Service.Auth.Verification.{resend_verification, resend_tx}
use portal_backend.Service.Auth.Passwords.{forgot_password, forgot_for, forgot_tx}
use portal_backend.Service.Auth.Logout.{logout, logout_tx, logout_all, logout_all_tx}

link-TxOnly : (path raw : Text) → TxOnly (link path raw)
unfolding link
link-TxOnly path raw = TxOnly-ask _

hash_password-TxOnly : (s : Text) → TxOnly (hash_password s)
unfolding hash_password
hash_password-TxOnly s = search service_rules depth 6

ruleset auth_rules = (
  service_rules, link-TxOnly, hash_password-TxOnly, validate_email-TxOnly, validate_username-TxOnly,
)

register_tx-TxOnly :
    (meta : Option AuditMeta) (row : User) (token : Text × Text)
    → TxOnly (register_tx meta row token)
unfolding register_tx
register_tx-TxOnly meta row token = search auth_rules depth 24

register-Atomic : (meta : Option AuditMeta) (input : RegisterInput) → Atomic (register meta input)
unfolding register
register-Atomic meta input =
    search (Atomic-bind, Atomic-map_err, Atomic-with_tx, register_tx-TxOnly, auth_rules) depth 30

resend_tx-TxOnly :
    (meta : Option AuditMeta) (found : Option User) (type : TokenType) (token : Text × Text)
    → TxOnly (resend_tx meta found type token)
unfolding resend_tx
resend_tx-TxOnly meta found type token = search auth_rules depth 24

resend_verification-Atomic :
    (meta : Option AuditMeta) (address : Text) (type : TokenType)
    → Atomic (resend_verification meta address type)
unfolding resend_verification
resend_verification-Atomic meta address type =
    search (Atomic-bind, Atomic-map_err, Atomic-with_tx, resend_tx-TxOnly, auth_rules) depth 20

forgot_tx-TxOnly :
    (meta : Option AuditMeta) (user : User) (token : Text × Text)
    → TxOnly (forgot_tx meta user token)
unfolding forgot_tx
forgot_tx-TxOnly meta user token = search auth_rules depth 24

forgot_for-Atomic : (meta : Option AuditMeta) (found : Option User) → Atomic (forgot_for meta found)
unfolding forgot_for
forgot_for-Atomic meta none = search (Atomic-TxOnly, auth_rules)
forgot_for-Atomic meta (some user) =
    search
      (
        Atomic-if, Atomic-TxOnly, Atomic-bind, Atomic-map_err, Atomic-with_tx, forgot_tx-TxOnly,
        auth_rules,
      )
      depth 12

forgot_password-Atomic :
    (meta : Option AuditMeta) (address : Text) → Atomic (forgot_password meta address)
unfolding forgot_password
forgot_password-Atomic meta address = search (Atomic-bind, forgot_for-Atomic, auth_rules) depth 12

logout_tx-TxOnly : (session : ℕ) → TxOnly (logout_tx session)
unfolding logout_tx
logout_tx-TxOnly session = search auth_rules depth 8

logout_all_tx-TxOnly : (user : ℕ) → TxOnly (logout_all_tx user)
unfolding logout_all_tx
logout_all_tx-TxOnly user = search auth_rules depth 8

no_panic-mark_revoked : (i e : ℕ) (w : World) → no_panic (Sessions.mark_revoked i e w).0 ≡ true
unfolding Sessions.mark_revoked
no_panic-mark_revoked i e w = ground arith

is_ok-mark_all_revoked :
    (ss : List AuthSession) (w : World) → is_ok (mark_all_revoked ss w).0 ≡ true
unfolding mark_all_revoked
is_ok-mark_all_revoked [] w = refl
is_ok-mark_all_revoked (s ∷ ss) w =
    is_ok-bind _ _ w (is_ok-log_err _ w (no_panic-mark_revoked _ _ w))
      (λ _ u. is_ok-mark_all_revoked ss u)

-- what logout does after its transaction
logged_ok :
    (meta : Option AuditMeta) (actor : Option AuditUser) (w : World)
    → is_ok
        (log_err
          (portal_backend.Service.Audit.log World.base_ctx meta action_logout actor actor)
          w).0
      ≡ true
logged_ok meta actor w = is_ok-log_err _ w (no_panic-log _ _ _ _ _ w)

logout-Atomic :
    (meta : Option AuditMeta) (actor : Option AuditUser) (session : ℕ)
    → Atomic (logout meta actor session)
unfolding logout
logout-Atomic meta actor session = Atomic-bind _ _ (search auth_rules) λ a.
    Atomic-bind _ _ (search auth_rules) λ _. Atomic-bind _ _ (search auth_rules) λ s.
      Atomic-then_total _ _ (Atomic-map_err _ _ (Atomic-with_tx _ (logout_tx-TxOnly session)))
        λ _ w.
          is_ok-bind _ _ w (is_ok-log_err _ w (no_panic-mark_revoked _ _ w))
            (λ _ u. logged_ok meta actor u)

logout_all-Atomic :
    (meta : Option AuditMeta) (actor : Option AuditUser) → Atomic (logout_all meta actor)
unfolding logout_all
logout_all-Atomic meta actor = Atomic-bind _ _ (search auth_rules) λ a.
    Atomic-bind _ _ (search auth_rules) λ _. Atomic-bind _ _ (search auth_rules) λ ss.
      Atomic-then_total _ _ (Atomic-map_err _ _ (Atomic-with_tx _ (logout_all_tx-TxOnly a.id)))
        λ _ w. is_ok-bind _ _ w (is_ok-mark_all_revoked ss w) (λ _ u. logged_ok meta actor u)

-- A registration that fails or panics leaves the committed database as it was: no user without a
-- verification token, mail or audit log.
pub register_keeps :
    (meta : Option AuditMeta) (input : RegisterInput) (w : World)
    → is_ok (register meta input w).0 ≡ false
    → (register meta input w).1.base ≡ w.base
register_keeps meta input w = (register-Atomic meta input).at w

-- A request for a new verification mail that fails or panics leaves the committed database as it
-- was.
pub resend_verification_keeps :
    (meta : Option AuditMeta) (address : Text) (type : TokenType) (w : World)
    → is_ok (resend_verification meta address type w).0 ≡ false
    → (resend_verification meta address type w).1.base ≡ w.base
resend_verification_keeps meta address type w = (resend_verification-Atomic meta address type).at w

-- A request to reset a password that fails or panics leaves the committed database as it was.
pub forgot_password_keeps :
    (meta : Option AuditMeta) (address : Text) (w : World)
    → is_ok (forgot_password meta address w).0 ≡ false
    → (forgot_password meta address w).1.base ≡ w.base
forgot_password_keeps meta address w = (forgot_password-Atomic meta address).at w

-- A logout from all devices that fails or panics leaves the committed database as it was.
pub logout_all_keeps :
    (meta : Option AuditMeta) (actor : Option AuditUser) (w : World)
    → is_ok (logout_all meta actor w).0 ≡ false
    → (logout_all meta actor w).1.base ≡ w.base
logout_all_keeps meta actor w = (logout_all-Atomic meta actor).at w
