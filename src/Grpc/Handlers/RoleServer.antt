-- ===== src/Grpc/Handlers/RoleServer.antt =====
-- internal/handler/grpcserver/admin_server.go: the roles and the permissions
use portal_backend.Prelude.{Option, some, []}
use portal_backend.Text.{codes}
use portal_backend.World.{M, pure, ◌>>=◌, ◌>>◌, map_err, ask}
use portal_backend.Service.RoleService
use portal_backend.Access.Authenticator.{Principal}
use portal_backend.Grpc.Messages.{
  Response, CreateRoleRequest, DeleteRoleRequest, PermissionRequest, message, role_response,
  roles_response, permissions_response,
}
use portal_backend.Grpc.Mapper.{map_error, role_model_to_pb, roles_to_pb, permissions_to_pb}
use portal_backend.Grpc.Server.{Server, Call, get_audit, get_actor}
use portal_backend.Grpc.Handlers.Fields.{
  required, parse_role_id, parse_permission_id, parse_replacement,
}

module _ (s : Server) (call : Call) where
  unfoldable pub list_roles_handler : Option Principal → M Response
  list_roles_handler p = do
    actor ← get_actor p
    roles ← map_err map_error RoleService.list_roles
    ask (λ w. roles_response (roles_to_pb w.env.uuid_text roles))

  -- a new role has no permissions loaded
  unfoldable pub create_role_handler : Option Principal → Option CreateRoleRequest → M Response
  create_role_handler p r = do
    req ← required r
    actor ← get_actor p
    role ← map_err map_error (
        RoleService.create_role (some (get_audit s call)) (some actor)
          (record { code = req.code; name = req.name }))
    ask (λ w. role_response (role_model_to_pb w.env.uuid_text role []))

  unfoldable pub delete_role_handler : Option Principal → Option DeleteRoleRequest → M Response
  delete_role_handler p r = do
    req ← required r
    actor ← get_actor p
    i ← parse_role_id s req.role_id
    replacement ← parse_replacement s req.replacement_role_id
    map_err map_error (RoleService.delete_role (some (get_audit s call)) (some actor) i replacement)
    pure (message (codes "role deleted successfully"))

  unfoldable pub assign_permission_handler :
      Option Principal → Option PermissionRequest → M Response
  assign_permission_handler p r = do
    req ← required r
    actor ← get_actor p
    i ← parse_role_id s req.role_id
    j ← parse_permission_id s req.permission_id
    map_err map_error (RoleService.assign_permission (some (get_audit s call)) (some actor) i j)
    pure (message (codes "permission assigned successfully"))

  unfoldable pub remove_permission_handler :
      Option Principal → Option PermissionRequest → M Response
  remove_permission_handler p r = do
    req ← required r
    actor ← get_actor p
    i ← parse_role_id s req.role_id
    j ← parse_permission_id s req.permission_id
    map_err map_error (RoleService.remove_permission (some (get_audit s call)) (some actor) i j)
    pure (message (codes "permission removed successfully"))

  unfoldable pub list_permissions_handler : Option Principal → M Response
  list_permissions_handler p = do
    actor ← get_actor p
    perms ← map_err map_error RoleService.list_permission
    ask (λ w. permissions_response (permissions_to_pb w.env.uuid_text perms))
