-- ===== src/Tests/Admin.antt =====
-- Runs of the operations of internal/service/role.go and internal/service/admin.go.
use portal_backend.Prelude.{ℕ, false, ◌≡◌, refl, none, some, ◌==◌, leb, any}
use portal_backend.Errors.{app, err_audit_logger}
use portal_backend.Model.{User}
use portal_backend.World
use portal_backend.World.{World, ok, err}
use portal_backend.Repo.Users
use portal_backend.Repo.Users.{is_live}
use portal_backend.Repo.Roles
use portal_backend.Repo.Roles.{granted}
use portal_backend.Repo.Audit
use portal_backend.Service.Audit as AuditLogger
use portal_backend.Service.RoleService
use portal_backend.Service.RoleService.Effects.{
  Modifiable, Deleted, delete_role_deletes, grant_is_changed,
}
use portal_backend.Service.Atomicity.{role_deletion, answer, failed_request_keeps}
use portal_backend.Service.AdminService
use portal_backend.Service.AdminService.Effects.{
  MayDelete, delete_user_deletes, delete_user_survives,
}
use portal_backend.Tests.{calm, world_with, db, alice, guest_role, admin_role, root, returned}

abbrev after_delete_role : World
after_delete_role = (RoleService.delete_role none (some root) 3 (some 2) calm).1

delete_role_deletes_example : Modifiable 3 db × Deleted 3 (some 2) db after_delete_role.base
unfolding RoleService.delete_role RoleService.move_users RoleService.role_fields World.◌>>=◌
    World.map_err World.log_err World.ask World.query World.write World.with_tx World.or_none
    World.ensure World.deref World.nullable World.unless_not_found Roles.find_by_id Roles.delete
    Users.exists_by_role_id_unscoped Users.update_role_by_role_id_unscoped Audit.create
    AuditLogger.log AuditLogger.audit_row AuditLogger.map_user_to_audit_user
    AuditLogger.log_with_metadata AuditLogger.marshal_data
delete_role_deletes_example =
    delete_role_deletes none (some root) 3 (some 2) calm after_delete_role refl

abbrev after_remove : World
after_remove = (RoleService.remove_permission none (some root) 3 7 calm).1

grant_is_changed_example :
    Modifiable 3 db × (any (granted 3 7) after_remove.base.role_permissions ≡ false)
unfolding RoleService.remove_permission RoleService.grant_fields RoleService.role_fields World.◌>>=◌
    World.map_err World.log_err World.ask World.query World.write World.with_tx World.or_none
    World.ensure World.deref World.nullable World.unless_not_found Roles.find_by_id
    Roles.find_permission_by_id Roles.remove_permission Audit.create AuditLogger.log
    AuditLogger.audit_row AuditLogger.map_user_to_audit_user AuditLogger.log_with_metadata
    AuditLogger.marshal_data
grant_is_changed_example = grant_is_changed none (some root) 3 7 false calm after_remove refl

-- where every effect from the given one on fails
abbrev failing_from : ℕ → World
failing_from k = world_with (λ n. leb k n)

failed_request_keeps_example :
    (answer (role_deletion none (some root) 3 (some 2)) (failing_from 6)).1 ≡ db
unfolding RoleService.delete_role RoleService.move_users RoleService.role_fields World.◌>>=◌
    World.map_err World.log_err World.ask World.query World.write World.with_tx World.or_none
    World.ensure World.deref World.nullable World.unless_not_found Roles.find_by_id Roles.delete
    Users.exists_by_role_id_unscoped Users.update_role_by_role_id_unscoped Audit.create
    AuditLogger.log AuditLogger.audit_row AuditLogger.map_user_to_audit_user
    AuditLogger.log_with_metadata AuditLogger.marshal_data
failed_request_keeps_example =
    failed_request_keeps (role_deletion none (some root) 3 (some 2)) (failing_from 6) refl

abbrev delete_run : World.Outcome User × World
delete_run = AdminService.delete_user none (some root) 10 calm

delete_user_deletes_example :
    MayDelete root 10 db × (any (is_live 10) delete_run.1.base.users ≡ false)
unfolding AdminService.delete_user World.◌>>=◌ World.map_err World.log_err World.ask World.query
    World.write World.with_tx World.or_none World.ensure World.deref World.nullable
    World.unless_not_found Roles.find_by_code Users.find_by_id Users.preload Users.delete
    Audit.create AuditLogger.log AuditLogger.audit_row AuditLogger.map_user_to_audit_user
delete_user_deletes_example =
    delete_user_deletes none root 10 calm (returned alice delete_run.0) delete_run.1 refl

-- where only the insertion of the audit log fails
abbrev unlogged : World
unlogged = world_with (λ n. n == 5)

delete_user_survives_example :
    ((AdminService.delete_user none (some root) 10 unlogged).0 ≡ err (app err_audit_logger))
    × (any (is_live 10) (AdminService.delete_user none (some root) 10 unlogged).1.base.users
        ≡ false)
unfolding Users.preload
delete_user_survives_example =
    delete_user_survives none root 10 unlogged (λ n. refl)
      (record alice { role = guest_role }, refl, admin_role, refl, refl)
