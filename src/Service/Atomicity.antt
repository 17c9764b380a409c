-- ===== src/Service/Atomicity.antt =====
-- Operations of the services whose transaction carries its context, where they fail.
use portal_backend.Prelude.{ℕ, ◌≡◌, Bool, false, Option}
use portal_backend.Text.{Text}
use portal_backend.Domain.{TokenType}
use portal_backend.Model.{Db}
use portal_backend.World.{World, M}
use portal_backend.World.Atomic.{is_ok}
use portal_backend.Service.Audit.{AuditMeta, AuditUser}
use portal_backend.Service.Auth.Register.{RegisterInput, register}
use portal_backend.Service.Auth.Verification.{resend_verification}
use portal_backend.Service.Auth.Passwords.{forgot_password}
use portal_backend.Service.Auth.Logout.{logout_all}
use portal_backend.Service.Auth.Atomicity.{
  register_keeps, resend_verification_keeps, forgot_password_keeps, logout_all_keeps,
}
use portal_backend.Service.AdminService.{CreateUserInput, create_user}
use portal_backend.Service.AdminService.Atomicity.{create_user_keeps}
use portal_backend.Service.RoleService.{
  CreateRoleInput, create_role, assign_permission, remove_permission, delete_role,
}
use portal_backend.Service.RoleService.Atomicity.{
  create_role_keeps, assign_permission_keeps, remove_permission-Atomic, delete_role_keeps,
}

-- what is asked of the services
pub data Request : Type 0 where
  registration : Option AuditMeta → RegisterInput → Request
  new_verification : Option AuditMeta → Text → TokenType → Request
  forgotten_password : Option AuditMeta → Text → Request
  logout_everywhere : Option AuditMeta → Option AuditUser → Request
  new_user : Option AuditMeta → Option AuditUser → CreateUserInput → Request
  new_role : Option AuditMeta → Option AuditUser → CreateRoleInput → Request
  new_grant withdrawn_grant : Option AuditMeta → Option AuditUser → ℕ → ℕ → Request
  role_deletion : Option AuditMeta → Option AuditUser → ℕ → Option ℕ → Request

-- whether an action returns, and the committed database that it leaves
abbrev pub end_of : {A : Type 0} → M A → World → Bool × Db
end_of m w = (is_ok (m w).0, (m w).1.base)

abbrev pub answer : Request → World → Bool × Db
answer (registration meta input) = end_of (register meta input)
answer (new_verification meta address type) = end_of (resend_verification meta address type)
answer (forgotten_password meta address) = end_of (forgot_password meta address)
answer (logout_everywhere meta actor) = end_of (logout_all meta actor)
answer (new_user meta actor input) = end_of (create_user meta actor input)
answer (new_role meta actor input) = end_of (create_role meta actor input)
answer (new_grant meta actor role perm) = end_of (assign_permission meta actor role perm)
answer (withdrawn_grant meta actor role perm) = end_of (remove_permission meta actor role perm)
answer (role_deletion meta actor role replacement) =
    end_of (delete_role meta actor role replacement)

-- A registration, a request for a verification mail or for a password reset, a logout from all
-- devices, a creation of a user or of a role, an assignment, a removal of a permission and a deletion
-- of a role: where one of them fails or panics, at whatever effect, the committed database is as it
-- was.
pub failed_request_keeps :
    (r : Request) (w : World) → (answer r w).0 ≡ false → (answer r w).1 ≡ w.base
failed_request_keeps (registration meta input) w = register_keeps meta input w
failed_request_keeps (new_verification meta address type) w =
    resend_verification_keeps meta address type w
failed_request_keeps (forgotten_password meta address) w = forgot_password_keeps meta address w
failed_request_keeps (logout_everywhere meta actor) w = logout_all_keeps meta actor w
failed_request_keeps (new_user meta actor input) w = create_user_keeps meta actor input w
failed_request_keeps (new_role meta actor input) w = create_role_keeps meta actor input w
failed_request_keeps (new_grant meta actor role perm) w =
    assign_permission_keeps meta actor role perm w
failed_request_keeps (withdrawn_grant meta actor role perm) w =
    (remove_permission-Atomic meta actor role perm).at w
failed_request_keeps (role_deletion meta actor role replacement) w =
    delete_role_keeps meta actor role replacement w
