-- ===== src/Service/Closed/Requests.antt =====
-- The requests that the services may be asked after a logout, and the session that it closed.
use portal_backend.Prelude.{ℕ, ◌≡◌, false, List, [], ◌∷◌, Option, ◌==◌}
use portal_backend.Text.{Text}
use portal_backend.Domain.{TokenType, RoleCode}
use portal_backend.World.{World, M, ok}
use portal_backend.World.Keeps.{Keeps}
use portal_backend.Repo.Audit.{AuditLogListFilter}
use portal_backend.Repo.Closed.{Closed}
use portal_backend.Service.Audit
use portal_backend.Service.Audit.{AuditMeta, AuditUser}
use portal_backend.Service.AdminService.{
  CreateUserInput, UsersFilter, list_users, create_user, delete_user, restore_user, update_role,
}
use portal_backend.Service.RoleService.{
  CreateRoleInput, create_role, list_roles, list_permission, assign_permission, remove_permission,
  delete_role,
}
use portal_backend.Service.UserService.{
  UpdateUserInput, get_profile, change_password, update_profile,
}
use portal_backend.Service.Auth.Login.{log_in}
use portal_backend.Service.Auth.Logout.{logout, logout_all}
use portal_backend.Service.Auth.Logout.Effects.{logout_closes}
use portal_backend.Service.Auth.Logout.Access.{closed_is_refused}
use portal_backend.Service.Auth.Passwords.{
  SetPasswordInput, forgot_password, set_password, reset_password,
}
use portal_backend.Service.Auth.RefreshTokens.{refresh}
use portal_backend.Service.Auth.Register.{RegisterInput, register}
use portal_backend.Service.Auth.Verification.{verify_email, resend_verification}
use portal_backend.Service.Closed.Accounts.{
  list_users-Closed, create_user-Closed, delete_user-Closed, restore_user-Closed,
  update_role-Closed, create_role-Closed, list_roles-Closed, list_permission-Closed,
  assign_permission-Closed, remove_permission-Closed, delete_role-Closed, get_profile-Closed,
  change_password-Closed, update_profile-Closed, audit_logs-Closed,
}
use portal_backend.Service.Closed.Auth.{
  log_in-Closed, logout-Closed, logout_all-Closed, forgot_password-Closed,
  apply_password_by_token-Closed, refresh-Closed, register-Closed, verify_email-Closed,
  resend_verification-Closed,
}
use portal_backend.Access.Authenticator.{Principal, authenticate}

-- every operation of the services, with its arguments
pub data Request : Type 0 where
  registration : Option AuditMeta → RegisterInput → Request
  verification new_verification : Option AuditMeta → Text → TokenType → Request
  login : Option AuditMeta → Text → Text → Request
  token_refresh forgotten_password : Option AuditMeta → Text → Request
  first_password new_password : Option AuditMeta → Option SetPasswordInput → TokenType → Request
  end_session : Option AuditMeta → Option AuditUser → ℕ → Request
  end_sessions : Option AuditMeta → Option AuditUser → Request
  profile : Option AuditMeta → Option AuditUser → ℕ → Request
  new_profile : Option AuditMeta → Option AuditUser → ℕ → UpdateUserInput → Request
  password_change : Option AuditMeta → Option AuditUser → Text → Text → Text → Request
  users : Option AuditMeta → Option AuditUser → UsersFilter → Request
  new_user : Option AuditMeta → Option AuditUser → CreateUserInput → Request
  deleted_user restored_user : Option AuditMeta → Option AuditUser → ℕ → Request
  new_role_of : Option AuditMeta → Option AuditUser → ℕ → RoleCode → Request
  roles permissions : Request
  new_role : Option AuditMeta → Option AuditUser → CreateRoleInput → Request
  grant_of withdrawal_of : Option AuditMeta → Option AuditUser → ℕ → ℕ → Request
  deleted_role : Option AuditMeta → Option AuditUser → ℕ → Option ℕ → Request
  audit_logs : AuditLogListFilter → Request

-- the world that an action leaves, whether it returns, fails or panics; a request starts outside
-- every transaction
abbrev left_by : {A : Type 0} → M A → World → World
left_by m w = (m (record w { tx = w.base })).1

abbrev pub answered : Request → World → World
answered (registration meta input) = left_by (register meta input)
answered (verification meta raw type) = left_by (verify_email meta raw type)
answered (new_verification meta address type) = left_by (resend_verification meta address type)
answered (login meta name password) = left_by (log_in meta name password)
answered (token_refresh meta raw) = left_by (refresh meta raw)
answered (forgotten_password meta address) = left_by (forgot_password meta address)
answered (first_password meta input type) = left_by (set_password meta input type)
answered (new_password meta input type) = left_by (reset_password meta input type)
answered (end_session meta actor i) = left_by (logout meta actor i)
answered (end_sessions meta actor) = left_by (logout_all meta actor)
answered (profile meta actor i) = left_by (get_profile meta actor i)
answered (new_profile meta actor i input) = left_by (update_profile meta actor i input)
answered (password_change meta actor old new confirm) =
    left_by (change_password meta actor old new confirm)
answered (users meta actor f) = left_by (list_users meta actor f)
answered (new_user meta actor input) = left_by (create_user meta actor input)
answered (deleted_user meta actor i) = left_by (delete_user meta actor i)
answered (restored_user meta actor i) = left_by (restore_user meta actor i)
answered (new_role_of meta actor i code) = left_by (update_role meta actor i code)
answered roles = left_by list_roles
answered permissions = left_by list_permission
answered (new_role meta actor input) = left_by (create_role meta actor input)
answered (grant_of meta actor role perm) = left_by (assign_permission meta actor role perm)
answered (withdrawal_of meta actor role perm) = left_by (remove_permission meta actor role perm)
answered (deleted_role meta actor role to) = left_by (delete_role meta actor role to)
answered (audit_logs f) = left_by (Audit.list f)

abbrev pub answered_all : List Request → World → World
answered_all [] w = w
answered_all (r ∷ rs) w = answered_all rs (answered r w)

module _ (s : ℕ) where
  abbrev Shut : World → Type 0
  Shut w = Closed s w.env w.base

  left_by-Shut :
      {A : Type 0} {m : M A} → Keeps (Closed s) m → (w : World) → Shut w → Shut (left_by m w)
  left_by-Shut h w shut = (h.at (record w { tx = w.base }) (shut, shut)).0

  answered-Shut : (r : Request) (w : World) → Shut w → Shut (answered r w)
  unfolding set_password reset_password
  answered-Shut (registration meta input) = left_by-Shut (register-Closed s meta input)
  answered-Shut (verification meta raw type) = left_by-Shut (verify_email-Closed s meta raw type)
  answered-Shut (new_verification meta address type) =
      left_by-Shut (resend_verification-Closed s meta address type)
  answered-Shut (login meta name password) = left_by-Shut (log_in-Closed s meta name password)
  answered-Shut (token_refresh meta raw) = left_by-Shut (refresh-Closed s meta raw)
  answered-Shut (forgotten_password meta address) =
      left_by-Shut (forgot_password-Closed s meta address)
  answered-Shut (first_password meta input type) =
      left_by-Shut (apply_password_by_token-Closed s meta input type)
  answered-Shut (new_password meta input type) =
      left_by-Shut (apply_password_by_token-Closed s meta input type)
  answered-Shut (end_session meta actor i) = left_by-Shut (logout-Closed s meta actor i)
  answered-Shut (end_sessions meta actor) = left_by-Shut (logout_all-Closed s meta actor)
  answered-Shut (profile meta actor i) = left_by-Shut (get_profile-Closed s meta actor i)
  answered-Shut (new_profile meta actor i input) =
      left_by-Shut (update_profile-Closed s meta actor i input)
  answered-Shut (password_change meta actor old new confirm) =
      left_by-Shut (change_password-Closed s meta actor old new confirm)
  answered-Shut (users meta actor f) = left_by-Shut (list_users-Closed s meta actor f)
  answered-Shut (new_user meta actor input) = left_by-Shut (create_user-Closed s meta actor input)
  answered-Shut (deleted_user meta actor i) = left_by-Shut (delete_user-Closed s meta actor i)
  answered-Shut (restored_user meta actor i) = left_by-Shut (restore_user-Closed s meta actor i)
  answered-Shut (new_role_of meta actor i code) =
      left_by-Shut (update_role-Closed s meta actor i code)
  answered-Shut roles = left_by-Shut (list_roles-Closed s)
  answered-Shut permissions = left_by-Shut (list_permission-Closed s)
  answered-Shut (new_role meta actor input) = left_by-Shut (create_role-Closed s meta actor input)
  answered-Shut (grant_of meta actor role perm) =
      left_by-Shut (assign_permission-Closed s meta actor role perm)
  answered-Shut (withdrawal_of meta actor role perm) =
      left_by-Shut (remove_permission-Closed s meta actor role perm)
  answered-Shut (deleted_role meta actor role to) =
      left_by-Shut (delete_role-Closed s meta actor role to)
  answered-Shut (audit_logs f) = left_by-Shut (audit_logs-Closed s f)

  answered_all-Shut : (rs : List Request) (w : World) → Shut w → Shut (answered_all rs w)
  answered_all-Shut [] w h = h
  answered_all-Shut (r ∷ rs) w h = answered_all-Shut rs (answered r w) (answered-Shut r w h)

-- After a logout that returned, no sequence of requests to the services, whatever each of them is
-- and however it ends, makes an access token of the session good again: a caller who is accepted
-- then has another session. The id of the session is none of those that the environment draws.
pub logout_is_final :
    (meta : Option AuditMeta) (actor : Option AuditUser) (s : ℕ) (w w' : World) (rs : List Request)
    (token : Text) (p : Principal) (v' : World)
    → ((n : ℕ) → (w'.env.uuid n == s) ≡ false)
    → logout meta actor s w ≡ (ok tt, w')
    → authenticate token (answered_all rs w') ≡ (ok p, v')
    → (p.session_id == s) ≡ false
logout_is_final meta actor s w w' rs token p v' undrawn out accepted =
    let shut =
      answered_all-Shut s rs w'
        (record { not_drawn = undrawn; none_left = (logout_closes meta actor s w w' out).0 }) in
    closed_is_refused s token (answered_all rs w') p v' shut.none_left accepted
