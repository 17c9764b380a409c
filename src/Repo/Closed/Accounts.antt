-- ===== src/Repo/Closed/Accounts.antt =====
-- A session that is closed stays closed, whatever the repositories of the other tables do.
use portal_backend.Prelude.{ℕ, refl, arith}
use portal_backend.Text.{Text}
use portal_backend.Domain.{TokenType}
use portal_backend.Model.{User, Role, UserToken, OutboxEvent, AuditLog}
use portal_backend.World.{Ctx}
use portal_backend.World.Keeps.{Keeps, Keeps-pure, Keeps-query, Keeps-write, Keeps-bind}
use portal_backend.Repo.Users
use portal_backend.Repo.Users.{UserListFilter}
use portal_backend.Repo.Roles
use portal_backend.Repo.Tokens
use portal_backend.Repo.Closed.{Closed, same_sessions}
use portal_backend.Repo.Outbox
use portal_backend.Repo.Audit
use portal_backend.Repo.Audit.{AuditLogListFilter}

module _ (s : ℕ) where
  pub users_create-Closed : (c : Ctx) (i : User) → Keeps (Closed s) (Users.create c i)
  unfolding Users.create
  users_create-Closed c i = Keeps-write _ _ _ (λ w db h. same_sessions s h refl)

  pub users_find_by_id-Closed : (c : Ctx) (i : ℕ) → Keeps (Closed s) (Users.find_by_id c i)
  unfolding Users.find_by_id
  users_find_by_id-Closed c i = Keeps-query _ _

  pub users_exists_by_role_id_unscoped-Closed :
      (c : Ctx) (i : ℕ) → Keeps (Closed s) (Users.exists_by_role_id_unscoped c i)
  unfolding Users.exists_by_role_id_unscoped
  users_exists_by_role_id_unscoped-Closed c i = Keeps-query _ _

  pub users_find_by_id_unscoped-Closed :
      (c : Ctx) (i : ℕ) → Keeps (Closed s) (Users.find_by_id_unscoped c i)
  unfolding Users.find_by_id_unscoped
  users_find_by_id_unscoped-Closed c i = Keeps-query _ _

  pub users_find_by_username-Closed :
      (c : Ctx) (i : Text) → Keeps (Closed s) (Users.find_by_username c i)
  unfolding Users.find_by_username
  users_find_by_username-Closed c i = Keeps-query _ _

  pub users_find_by_email-Closed : (c : Ctx) (i : Text) → Keeps (Closed s) (Users.find_by_email c i)
  unfolding Users.find_by_email
  users_find_by_email-Closed c i = Keeps-query _ _

  pub users_update-Closed : (c : Ctx) (i : User) → Keeps (Closed s) (Users.update c i)
  unfolding Users.update
  users_update-Closed c i = Keeps-write _ _ _ (λ w db h. same_sessions s h refl)

  pub users_update_password-Closed :
      (c : Ctx) (i : ℕ) (j : Text) → Keeps (Closed s) (Users.update_password c i j)
  unfolding Users.update_password
  users_update_password-Closed c i j = Keeps-write _ _ _ (λ w db h. same_sessions s h refl)

  pub users_update_role-Closed :
      (c : Ctx) (i : ℕ) (j : ℕ) → Keeps (Closed s) (Users.update_role c i j)
  unfolding Users.update_role
  users_update_role-Closed c i j = Keeps-write _ _ _ (λ w db h. same_sessions s h refl)

  pub users_update_role_by_role_id_unscoped-Closed :
      (c : Ctx) (i : ℕ) (j : ℕ) → Keeps (Closed s) (Users.update_role_by_role_id_unscoped c i j)
  unfolding Users.update_role_by_role_id_unscoped
  users_update_role_by_role_id_unscoped-Closed c i j =
      Keeps-write _ _ _ (λ w db h. same_sessions s h refl)

  pub users_mark_email_verified-Closed :
      (c : Ctx) (i : ℕ) → Keeps (Closed s) (Users.mark_email_verified c i)
  unfolding Users.mark_email_verified
  users_mark_email_verified-Closed c i = Keeps-write _ _ _ (λ w db h. same_sessions s h refl)

  pub users_delete-Closed : (c : Ctx) (i : ℕ) (j : ℕ) → Keeps (Closed s) (Users.delete c i j)
  unfolding Users.delete
  users_delete-Closed c i j = Keeps-write _ _ _ (λ w db h. same_sessions s h refl)

  pub users_restore-Closed : (c : Ctx) (i : ℕ) → Keeps (Closed s) (Users.restore c i)
  unfolding Users.restore
  users_restore-Closed c i = Keeps-write _ _ _ (λ w db h. same_sessions s h refl)

  pub users_list_users-Closed :
      (c : Ctx) (i : UserListFilter) → Keeps (Closed s) (Users.list_users c i)
  unfolding Users.list_users
  users_list_users-Closed c i =
      Keeps-bind _ _ (Keeps-query _ _) (λ _. Keeps-bind _ _ (Keeps-query _ _) (λ _. Keeps-pure _))

  pub roles_create-Closed : (c : Ctx) (i : Role) → Keeps (Closed s) (Roles.create c i)
  unfolding Roles.create
  roles_create-Closed c i = Keeps-write _ _ _ (λ w db h. same_sessions s h refl)

  pub roles_find_by_code-Closed : (c : Ctx) (i : Text) → Keeps (Closed s) (Roles.find_by_code c i)
  unfolding Roles.find_by_code
  roles_find_by_code-Closed c i = Keeps-query _ _

  pub roles_find_by_id-Closed : (c : Ctx) (i : ℕ) → Keeps (Closed s) (Roles.find_by_id c i)
  unfolding Roles.find_by_id
  roles_find_by_id-Closed c i = Keeps-query _ _

  pub roles_list-Closed : (c : Ctx) → Keeps (Closed s) (Roles.list c)
  unfolding Roles.list
  roles_list-Closed c = Keeps-query _ _

  pub roles_get_with_permissions-Closed :
      (c : Ctx) (i : ℕ) → Keeps (Closed s) (Roles.get_with_permissions c i)
  unfolding Roles.get_with_permissions
  roles_get_with_permissions-Closed c i = Keeps-query _ _

  pub roles_assign_permission-Closed :
      (c : Ctx) (i : ℕ) (j : ℕ) → Keeps (Closed s) (Roles.assign_permission c i j)
  unfolding Roles.assign_permission
  roles_assign_permission-Closed c i j =
      Keeps-write _ _ _ (λ w db h. same_sessions s h (ground arith))

  pub roles_remove_permission-Closed :
      (c : Ctx) (i : ℕ) (j : ℕ) → Keeps (Closed s) (Roles.remove_permission c i j)
  unfolding Roles.remove_permission
  roles_remove_permission-Closed c i j = Keeps-write _ _ _ (λ w db h. same_sessions s h refl)

  pub roles_delete-Closed : (c : Ctx) (i : ℕ) → Keeps (Closed s) (Roles.delete c i)
  unfolding Roles.delete
  roles_delete-Closed c i = Keeps-write _ _ _ (λ w db h. same_sessions s h refl)

  pub roles_find_permission_by_id-Closed :
      (c : Ctx) (i : ℕ) → Keeps (Closed s) (Roles.find_permission_by_id c i)
  unfolding Roles.find_permission_by_id
  roles_find_permission_by_id-Closed c i = Keeps-query _ _

  pub roles_list_permissions-Closed : (c : Ctx) → Keeps (Closed s) (Roles.list_permissions c)
  unfolding Roles.list_permissions
  roles_list_permissions-Closed c = Keeps-query _ _

  pub tokens_create-Closed : (c : Ctx) (i : UserToken) → Keeps (Closed s) (Tokens.create c i)
  unfolding Tokens.create
  tokens_create-Closed c i = Keeps-write _ _ _ (λ w db h. same_sessions s h refl)

  pub tokens_find_valid_token-Closed :
      (c : Ctx) (i : Text) (j : TokenType) → Keeps (Closed s) (Tokens.find_valid_token c i j)
  unfolding Tokens.find_valid_token
  tokens_find_valid_token-Closed c i j = Keeps-query _ _

  pub tokens_mark_used-Closed : (c : Ctx) (i : ℕ) → Keeps (Closed s) (Tokens.mark_used c i)
  unfolding Tokens.mark_used
  tokens_mark_used-Closed c i = Keeps-write _ _ _ (λ w db h. same_sessions s h refl)

  pub tokens_revoke-Closed : (c : Ctx) (i : ℕ) → Keeps (Closed s) (Tokens.revoke c i)
  unfolding Tokens.revoke
  tokens_revoke-Closed c i = Keeps-write _ _ _ (λ w db h. same_sessions s h refl)

  pub tokens_revoke_by_user_and_type-Closed :
      (c : Ctx) (i : ℕ) (j : TokenType) → Keeps (Closed s) (Tokens.revoke_by_user_and_type c i j)
  unfolding Tokens.revoke_by_user_and_type
  tokens_revoke_by_user_and_type-Closed c i j = Keeps-write _ _ _ (λ w db h. same_sessions s h refl)

  pub outbox_create-Closed : (c : Ctx) (i : OutboxEvent) → Keeps (Closed s) (Outbox.create c i)
  unfolding Outbox.create
  outbox_create-Closed c i = Keeps-write _ _ _ (λ w db h. same_sessions s h refl)

  pub audit_create-Closed : (c : Ctx) (i : AuditLog) → Keeps (Closed s) (Audit.create c i)
  unfolding Audit.create
  audit_create-Closed c i = Keeps-write _ _ _ (λ w db h. same_sessions s h refl)

  pub audit_list-Closed : (c : Ctx) (i : AuditLogListFilter) → Keeps (Closed s) (Audit.list c i)
  unfolding Audit.list
  audit_list-Closed c i =
      Keeps-bind _ _ (Keeps-query _ _) (λ _. Keeps-bind _ _ (Keeps-query _ _) (λ _. Keeps-pure _))

pub ruleset account_statements = (
  users_create-Closed, users_find_by_id-Closed, users_exists_by_role_id_unscoped-Closed,
  users_find_by_id_unscoped-Closed, users_find_by_username-Closed, users_find_by_email-Closed,
  users_update-Closed, users_update_password-Closed, users_update_role-Closed,
  users_update_role_by_role_id_unscoped-Closed, users_mark_email_verified-Closed,
  users_delete-Closed, users_restore-Closed, users_list_users-Closed, roles_create-Closed,
  roles_find_by_code-Closed, roles_find_by_id-Closed, roles_list-Closed,
  roles_get_with_permissions-Closed, roles_assign_permission-Closed, roles_remove_permission-Closed,
  roles_delete-Closed, roles_find_permission_by_id-Closed, roles_list_permissions-Closed,
  tokens_create-Closed, tokens_find_valid_token-Closed, tokens_mark_used-Closed,
  tokens_revoke-Closed, tokens_revoke_by_user_and_type-Closed, outbox_create-Closed,
  audit_create-Closed, audit_list-Closed,
)
