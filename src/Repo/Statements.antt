-- ===== src/Repo/Statements.antt =====
-- Which statements of the repositories leave the committed database alone: every query, and every
-- write whose context is the transaction's.
use portal_backend.Prelude.{ℤ, ℕ, Bool, List}
use portal_backend.Text.{Text}
use portal_backend.Domain.{TokenType}
use portal_backend.Model.{User, Role, UserToken, RefreshToken, OutboxEvent, AuditLog}
use portal_backend.World.{Ctx, tx_ctx}
use portal_backend.World.Atomic.{TxOnly, TxOnly-query, TxOnly-write}
use portal_backend.Repo.Users
use portal_backend.Repo.Roles
use portal_backend.Repo.Tokens
use portal_backend.Repo.Sessions
use portal_backend.Repo.Refresh
use portal_backend.Repo.Outbox
use portal_backend.Repo.Audit

pub users_create-TxOnly : (u : User) → TxOnly (Users.create tx_ctx u)
unfolding Users.create
users_create-TxOnly u = TxOnly-write _ _

pub users_find_by_id-TxOnly : (c : Ctx) (i : ℕ) → TxOnly (Users.find_by_id c i)
unfolding Users.find_by_id
users_find_by_id-TxOnly c i = TxOnly-query _ _

pub users_find_by_id_unscoped-TxOnly : (c : Ctx) (i : ℕ) → TxOnly (Users.find_by_id_unscoped c i)
unfolding Users.find_by_id_unscoped
users_find_by_id_unscoped-TxOnly c i = TxOnly-query _ _

pub users_exists_by_role_id_unscoped-TxOnly :
    (c : Ctx) (i : ℕ) → TxOnly (Users.exists_by_role_id_unscoped c i)
unfolding Users.exists_by_role_id_unscoped
users_exists_by_role_id_unscoped-TxOnly c i = TxOnly-query _ _

pub users_find_by_username-TxOnly : (c : Ctx) (s : Text) → TxOnly (Users.find_by_username c s)
unfolding Users.find_by_username
users_find_by_username-TxOnly c s = TxOnly-query _ _

pub users_find_by_email-TxOnly : (c : Ctx) (s : Text) → TxOnly (Users.find_by_email c s)
unfolding Users.find_by_email
users_find_by_email-TxOnly c s = TxOnly-query _ _

pub users_update-TxOnly : (u : User) → TxOnly (Users.update tx_ctx u)
unfolding Users.update
users_update-TxOnly u = TxOnly-write _ _

pub users_update_password-TxOnly : (i : ℕ) (h : Text) → TxOnly (Users.update_password tx_ctx i h)
unfolding Users.update_password
users_update_password-TxOnly i h = TxOnly-write _ _

pub users_update_role_by_role_id_unscoped-TxOnly :
    (i j : ℕ) → TxOnly (Users.update_role_by_role_id_unscoped tx_ctx i j)
unfolding Users.update_role_by_role_id_unscoped
users_update_role_by_role_id_unscoped-TxOnly i j = TxOnly-write _ _

pub roles_create-TxOnly : (r : Role) → TxOnly (Roles.create tx_ctx r)
unfolding Roles.create
roles_create-TxOnly r = TxOnly-write _ _

pub roles_find_by_code-TxOnly : (c : Ctx) (s : Text) → TxOnly (Roles.find_by_code c s)
unfolding Roles.find_by_code
roles_find_by_code-TxOnly c s = TxOnly-query _ _

pub roles_find_by_id-TxOnly : (c : Ctx) (i : ℕ) → TxOnly (Roles.find_by_id c i)
unfolding Roles.find_by_id
roles_find_by_id-TxOnly c i = TxOnly-query _ _

pub roles_find_permission_by_id-TxOnly :
    (c : Ctx) (i : ℕ) → TxOnly (Roles.find_permission_by_id c i)
unfolding Roles.find_permission_by_id
roles_find_permission_by_id-TxOnly c i = TxOnly-query _ _

pub roles_assign_permission-TxOnly : (i j : ℕ) → TxOnly (Roles.assign_permission tx_ctx i j)
unfolding Roles.assign_permission
roles_assign_permission-TxOnly i j = TxOnly-write _ _

pub roles_remove_permission-TxOnly : (i j : ℕ) → TxOnly (Roles.remove_permission tx_ctx i j)
unfolding Roles.remove_permission
roles_remove_permission-TxOnly i j = TxOnly-write _ _

pub roles_delete-TxOnly : (i : ℕ) → TxOnly (Roles.delete tx_ctx i)
unfolding Roles.delete
roles_delete-TxOnly i = TxOnly-write _ _

pub tokens_create-TxOnly : (t : UserToken) → TxOnly (Tokens.create tx_ctx t)
unfolding Tokens.create
tokens_create-TxOnly t = TxOnly-write _ _

pub tokens_find_valid_token-TxOnly :
    (c : Ctx) (s : Text) (t : TokenType) → TxOnly (Tokens.find_valid_token c s t)
unfolding Tokens.find_valid_token
tokens_find_valid_token-TxOnly c s t = TxOnly-query _ _

pub tokens_revoke_by_user_and_type-TxOnly :
    (i : ℕ) (t : TokenType) → TxOnly (Tokens.revoke_by_user_and_type tx_ctx i t)
unfolding Tokens.revoke_by_user_and_type
tokens_revoke_by_user_and_type-TxOnly i t = TxOnly-write _ _

pub sessions_find_active_by_id-TxOnly : (c : Ctx) (i : ℕ) → TxOnly (Sessions.find_active_by_id c i)
unfolding Sessions.find_active_by_id
sessions_find_active_by_id-TxOnly c i = TxOnly-query _ _

pub sessions_list_active_by_user_id-TxOnly :
    (c : Ctx) (i : ℕ) → TxOnly (Sessions.list_active_by_user_id c i)
unfolding Sessions.list_active_by_user_id
sessions_list_active_by_user_id-TxOnly c i = TxOnly-query _ _

pub sessions_revoke_by_id-TxOnly : (i : ℕ) → TxOnly (Sessions.revoke_by_id tx_ctx i)
unfolding Sessions.revoke_by_id
sessions_revoke_by_id-TxOnly i = TxOnly-write _ _

pub sessions_revoke_all_by_user_id-TxOnly :
    (i : ℕ) → TxOnly (Sessions.revoke_all_by_user_id tx_ctx i)
unfolding Sessions.revoke_all_by_user_id
sessions_revoke_all_by_user_id-TxOnly i = TxOnly-write _ _

pub refresh_create-TxOnly : (t : RefreshToken) → TxOnly (Refresh.create tx_ctx t)
unfolding Refresh.create
refresh_create-TxOnly t = TxOnly-write _ _

pub refresh_find_by_token_hash-TxOnly :
    (c : Ctx) (s : Text) → TxOnly (Refresh.find_by_token_hash c s)
unfolding Refresh.find_by_token_hash
refresh_find_by_token_hash-TxOnly c s = TxOnly-query _ _

pub refresh_mark_replacement-TxOnly : (i j : ℕ) → TxOnly (Refresh.mark_replacement tx_ctx i j)
unfolding Refresh.mark_replacement
refresh_mark_replacement-TxOnly i j = TxOnly-write _ _

pub refresh_revoke_by_id-TxOnly : (i : ℕ) → TxOnly (Refresh.revoke_by_id tx_ctx i)
unfolding Refresh.revoke_by_id
refresh_revoke_by_id-TxOnly i = TxOnly-write _ _

pub refresh_revoke_by_user_id-TxOnly : (i : ℕ) → TxOnly (Refresh.revoke_by_user_id tx_ctx i)
unfolding Refresh.revoke_by_user_id
refresh_revoke_by_user_id-TxOnly i = TxOnly-write _ _

pub refresh_revoke_by_session_id-TxOnly : (i : ℕ) → TxOnly (Refresh.revoke_by_session_id tx_ctx i)
unfolding Refresh.revoke_by_session_id
refresh_revoke_by_session_id-TxOnly i = TxOnly-write _ _

pub outbox_create-TxOnly : (e : OutboxEvent) → TxOnly (Outbox.create tx_ctx e)
unfolding Outbox.create
outbox_create-TxOnly e = TxOnly-write _ _

pub outbox_mark_publishing-TxOnly :
    (is : List ℕ) (s : Text) → TxOnly (Outbox.mark_publishing tx_ctx is s)
unfolding Outbox.mark_publishing
outbox_mark_publishing-TxOnly is s = TxOnly-write _ _

pub outbox_list_pending_for_update-TxOnly :
    (c : Ctx) (l : OutboxEvent → Bool) (n : ℤ) → TxOnly (Outbox.list_pending_for_update c l n)
unfolding Outbox.list_pending_for_update
outbox_list_pending_for_update-TxOnly c l n = TxOnly-query _ _

pub audit_create-TxOnly : (l : AuditLog) → TxOnly (Audit.create tx_ctx l)
unfolding Audit.create
audit_create-TxOnly l = TxOnly-write _ _

pub ruleset statement_rules = (
  users_create-TxOnly, users_find_by_id-TxOnly, users_find_by_id_unscoped-TxOnly,
  users_exists_by_role_id_unscoped-TxOnly, users_find_by_username-TxOnly,
  users_find_by_email-TxOnly, users_update-TxOnly, users_update_password-TxOnly,
  users_update_role_by_role_id_unscoped-TxOnly, roles_create-TxOnly, roles_find_by_code-TxOnly,
  roles_find_by_id-TxOnly, roles_find_permission_by_id-TxOnly, roles_assign_permission-TxOnly,
  roles_remove_permission-TxOnly, roles_delete-TxOnly, tokens_create-TxOnly,
  tokens_find_valid_token-TxOnly, tokens_revoke_by_user_and_type-TxOnly,
  sessions_find_active_by_id-TxOnly, sessions_list_active_by_user_id-TxOnly,
  sessions_revoke_by_id-TxOnly, sessions_revoke_all_by_user_id-TxOnly, refresh_create-TxOnly,
  refresh_find_by_token_hash-TxOnly, refresh_mark_replacement-TxOnly, refresh_revoke_by_id-TxOnly,
  refresh_revoke_by_user_id-TxOnly, refresh_revoke_by_session_id-TxOnly, outbox_create-TxOnly,
  outbox_mark_publishing-TxOnly, outbox_list_pending_for_update-TxOnly, audit_create-TxOnly,
)
