-- ===== src/Service/Closed/Accounts.antt =====
-- The services of users, roles and audit logs leave a closed session closed.
use portal_backend.Prelude.{ℕ, Option, none, some}
use portal_backend.Text.{Text}
use portal_backend.Domain.{RoleCode}
use portal_backend.Model.{User}
use portal_backend.World.Keeps.{Keeps}
use portal_backend.Repo.Closed.{Closed}
use portal_backend.Service.Audit.{AuditMeta, AuditUser}
use portal_backend.Service.AdminService.{
  UsersFilter, CreateUserInput, filter_role, list_users, create_user, delete_user, restore_user,
  update_role,
}
use portal_backend.Service.RoleService.{
  CreateRoleInput, create_role, list_roles, list_permission, assign_permission, remove_permission,
  move_users, delete_role,
}
use portal_backend.Service.UserService.{
  UpdateUserInput, get_profile, change_password, new_username, update_profile,
}
use portal_backend.Repo.Audit.{AuditLogListFilter}
use portal_backend.Service.Closed.{closed_statements, closed_calls}
use portal_backend.Service.Audit

module _ (s : ℕ) where
  pub filter_role-Closed : (f : Option RoleCode) → Keeps (Closed s) (filter_role f)
  unfolding filter_role
  filter_role-Closed none = search (closed_calls, closed_statements) depth 12
  filter_role-Closed (some x) = search (closed_calls, closed_statements) depth 16

  pub list_users-Closed :
      (meta : Option AuditMeta) (actor : Option AuditUser) (f : UsersFilter)
      → Keeps (Closed s) (list_users meta actor f)
  unfolding list_users
  list_users-Closed meta actor f =
      search (closed_calls, closed_statements, filter_role-Closed) depth 40

  pub create_user-Closed :
      (meta : Option AuditMeta) (actor : Option AuditUser) (input : CreateUserInput)
      → Keeps (Closed s) (create_user meta actor input)
  unfolding create_user
  create_user-Closed meta actor input = search (closed_calls, closed_statements) depth 40

  pub delete_user-Closed :
      (meta : Option AuditMeta) (actor : Option AuditUser) (i : ℕ)
      → Keeps (Closed s) (delete_user meta actor i)
  unfolding delete_user
  delete_user-Closed meta actor i = search (closed_calls, closed_statements) depth 40

  pub restore_user-Closed :
      (meta : Option AuditMeta) (actor : Option AuditUser) (i : ℕ)
      → Keeps (Closed s) (restore_user meta actor i)
  unfolding restore_user
  restore_user-Closed meta actor i = search (closed_calls, closed_statements) depth 40

  pub update_role-Closed :
      (meta : Option AuditMeta) (actor : Option AuditUser) (i : ℕ) (code : RoleCode)
      → Keeps (Closed s) (update_role meta actor i code)
  unfolding update_role
  update_role-Closed meta actor i code = search (closed_calls, closed_statements) depth 40

  pub create_role-Closed :
      (meta : Option AuditMeta) (actor : Option AuditUser) (input : CreateRoleInput)
      → Keeps (Closed s) (create_role meta actor input)
  unfolding create_role
  create_role-Closed meta actor input = search (closed_calls, closed_statements) depth 40

  pub list_roles-Closed : Keeps (Closed s) list_roles
  unfolding list_roles
  list_roles-Closed = search (closed_calls, closed_statements) depth 40

  pub list_permission-Closed : Keeps (Closed s) list_permission
  unfolding list_permission
  list_permission-Closed = search (closed_calls, closed_statements) depth 40

  pub assign_permission-Closed :
      (meta : Option AuditMeta) (actor : Option AuditUser) (role perm : ℕ)
      → Keeps (Closed s) (assign_permission meta actor role perm)
  unfolding assign_permission
  assign_permission-Closed meta actor role perm = search (closed_calls, closed_statements) depth 40

  pub remove_permission-Closed :
      (meta : Option AuditMeta) (actor : Option AuditUser) (role perm : ℕ)
      → Keeps (Closed s) (remove_permission meta actor role perm)
  unfolding remove_permission
  remove_permission-Closed meta actor role perm = search (closed_calls, closed_statements) depth 40

  pub move_users-Closed : (role : ℕ) (to : Option ℕ) → Keeps (Closed s) (move_users role to)
  unfolding move_users
  move_users-Closed role none = search (closed_calls, closed_statements) depth 12
  move_users-Closed role (some x) = search (closed_calls, closed_statements) depth 16

  pub delete_role-Closed :
      (meta : Option AuditMeta) (actor : Option AuditUser) (role : ℕ) (to : Option ℕ)
      → Keeps (Closed s) (delete_role meta actor role to)
  unfolding delete_role
  delete_role-Closed meta actor role to =
      search (closed_calls, closed_statements, move_users-Closed) depth 40

  pub get_profile-Closed :
      (meta : Option AuditMeta) (actor : Option AuditUser) (i : ℕ)
      → Keeps (Closed s) (get_profile meta actor i)
  unfolding get_profile
  get_profile-Closed meta actor i = search (closed_calls, closed_statements) depth 40

  pub change_password-Closed :
      (meta : Option AuditMeta) (actor : Option AuditUser) (old new confirm : Text)
      → Keeps (Closed s) (change_password meta actor old new confirm)
  unfolding change_password
  change_password-Closed meta actor old new confirm =
      search (closed_calls, closed_statements) depth 40

  pub new_username-Closed :
      (user : User) (name : Option Text) → Keeps (Closed s) (new_username user name)
  unfolding new_username
  new_username-Closed user none = search (closed_calls, closed_statements) depth 12
  new_username-Closed user (some x) = search (closed_calls, closed_statements) depth 16

  pub update_profile-Closed :
      (meta : Option AuditMeta) (actor : Option AuditUser) (i : ℕ) (input : UpdateUserInput)
      → Keeps (Closed s) (update_profile meta actor i input)
  unfolding update_profile
  update_profile-Closed meta actor i input =
      search (closed_calls, closed_statements, new_username-Closed) depth 40

  pub audit_logs-Closed : (f : AuditLogListFilter) → Keeps (Closed s) (Audit.list f)
  unfolding Audit.list
  audit_logs-Closed f = search (closed_calls, closed_statements) depth 40
