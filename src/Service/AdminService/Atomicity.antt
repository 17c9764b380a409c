-- ===== src/Service/AdminService/Atomicity.antt =====
-- CreateUser of internal/service/admin.go where it fails.
use portal_backend.Prelude.{Option, false, ◌≡◌}
use portal_backend.Text.{Text}
use portal_backend.World.{World}
use portal_backend.World.Atomic.{TxOnly, Atomic, Atomic-with_tx, Atomic-bind, is_ok}
use portal_backend.Service.{validate_normalized_email, validate_normalized_username}
use portal_backend.Service.Audit.{AuditMeta, AuditUser}
use portal_backend.Service.Rules.{service_rules}
use portal_backend.Service.AdminService.{CreateUserInput, create_user}

pub validate_email-TxOnly : (s : Text) → TxOnly (validate_normalized_email s)
unfolding validate_normalized_email
validate_email-TxOnly s = search service_rules

pub validate_username-TxOnly : (s : Text) → TxOnly (validate_normalized_username s)
unfolding validate_normalized_username
validate_username-TxOnly s = search service_rules

create_user-Atomic :
    (meta : Option AuditMeta) (actor : Option AuditUser) (input : CreateUserInput)
    → Atomic (create_user meta actor input)
unfolding create_user
create_user-Atomic meta actor input =
    search
      (Atomic-bind, Atomic-with_tx, validate_email-TxOnly, validate_username-TxOnly, service_rules)
      depth 40

-- A creation of a user by an administrator that fails or panics leaves the committed database as it
-- was: no user without the token and the mail to set a password.
pub create_user_keeps :
    (meta : Option AuditMeta) (actor : Option AuditUser) (input : CreateUserInput) (w : World)
    → is_ok (create_user meta actor input w).0 ≡ false
    → (create_user meta actor input w).1.base ≡ w.base
create_user_keeps meta actor input w = (create_user-Atomic meta actor input).at w
