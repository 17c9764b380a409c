-- ===== src/Service/Auth/Verification/Effects.antt =====
-- ResendVerification of internal/service/auth.go for an address that no user has.
use portal_backend.Prelude.{ℕ, suc, false, ◌&&◌, ◌≡◌, refl, Option, none, some, first}
use portal_backend.Text.{Text, text_eq}
use portal_backend.Domain.{TokenType}
use portal_backend.Model.{User}
use portal_backend.World.{World, panic, query, ◌>>=◌, ask, or_none, deref, map_err, with_tx}
use portal_backend.Repo.{normalize}
use portal_backend.Repo.Users
use portal_backend.Repo.Users.{live, loaded}
use portal_backend.Service.{normalize_identity}
use portal_backend.Service.Audit.{AuditMeta}
use portal_backend.Service.Token.{hash_token, generate_hash_token}
use portal_backend.Service.Auth.Verification.{resend_tx, resend_verification}

-- the live user of an e-mail address
abbrev pub of_email : World → Text → Option User
of_email w s = first (λ u. text_eq (w.env.sql_key u.email) (normalize w s) && live u) w.base.users

-- Where no user that is not soft-deleted has the e-mail, and no effect fails, resending the
-- verification mail panics: it follows a nil user.
pub resend_verification_panics :
    (meta : Option AuditMeta) (address : Text) (type : TokenType) (w : World) (raw : Text)
    → ((n : ℕ) → w.env.fault n ≡ false)
    → w.env.random_hex (suc (suc w.step)) ≡ some raw
    → of_email w (normalize_identity w address) ≡ none
    → (resend_verification meta address type w).0 ≡ panic
unfolding resend_verification resend_tx Users.find_by_email query ◌>>=◌ ask or_none deref map_err
    with_tx generate_hash_token hash_token normalize normalize_identity
resend_verification_panics meta address type w raw no_fault is_raw no_user =
    rw (no_fault (suc w.step), no_user, is_raw, no_fault) refl
