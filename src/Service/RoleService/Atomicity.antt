-- ===== src/Service/RoleService/Atomicity.antt =====
-- The operations of internal/service/role.go where they fail.
use portal_backend.Prelude.{ℕ, Option, some, none, refl, ◌≡◌, false}
use portal_backend.World.{World}
use portal_backend.World.Atomic.{
  TxOnly, Atomic, Atomic-with_tx, Atomic-bind, Atomic-then_total, is_ok,
}
use portal_backend.Service.Audit.{AuditMeta, AuditUser}
use portal_backend.Service.Rules.{service_rules}
use portal_backend.Service.RoleService.{
  CreateRoleInput, create_role, assign_permission, remove_permission, move_users, delete_role,
}

-- Assigning a permission is all or nothing.
pub assign_permission-Atomic :
    (meta : Option AuditMeta) (actor : Option AuditUser) (role perm : ℕ)
    → Atomic (assign_permission meta actor role perm)
unfolding assign_permission
assign_permission-Atomic meta actor role perm = Atomic-with_tx _ (search service_rules depth 14)

-- So is removing one.
pub remove_permission-Atomic :
    (meta : Option AuditMeta) (actor : Option AuditUser) (role perm : ℕ)
    → Atomic (remove_permission meta actor role perm)
unfolding remove_permission
remove_permission-Atomic meta actor role perm = Atomic-with_tx _ (search service_rules depth 14)

move_users-TxOnly : (role : ℕ) (replacement : Option ℕ) → TxOnly (move_users role replacement)
unfolding move_users
move_users-TxOnly role none = search service_rules
move_users-TxOnly role (some r) = search service_rules depth 10

-- So is deleting a role, the move of its users included.
pub delete_role-Atomic :
    (meta : Option AuditMeta) (actor : Option AuditUser) (role : ℕ) (replacement : Option ℕ)
    → Atomic (delete_role meta actor role replacement)
unfolding delete_role
delete_role-Atomic meta actor role replacement = Atomic-bind _ _ (search service_rules) λ r.
    Atomic-bind _ _ (search service_rules) λ _. Atomic-bind _ _ (search service_rules) λ used.
      Atomic-bind _ _ (search service_rules)
        λ _. Atomic-with_tx _ (search (move_users-TxOnly, service_rules) depth 14)

-- So is creating one.
pub create_role-Atomic :
    (meta : Option AuditMeta) (actor : Option AuditUser) (input : CreateRoleInput)
    → Atomic (create_role meta actor input)
unfolding create_role
create_role-Atomic meta actor input = Atomic-bind _ _ (search service_rules) λ _.
    Atomic-bind _ _ (search service_rules) λ existing. Atomic-bind _ _ (search service_rules) λ _.
      Atomic-bind _ _ (search service_rules)
        λ id. Atomic-then_total _ _ (Atomic-with_tx _ (search service_rules depth 14)) (λ _ w. refl)

-- A deletion of a role that fails or panics leaves the committed database as it was, the move of
-- the users to the replacement included.
pub delete_role_keeps :
    (meta : Option AuditMeta) (actor : Option AuditUser) (role : ℕ) (replacement : Option ℕ)
    (w : World)
    → is_ok (delete_role meta actor role replacement w).0 ≡ false
    → (delete_role meta actor role replacement w).1.base ≡ w.base
delete_role_keeps meta actor role replacement w =
    (delete_role-Atomic meta actor role replacement).at w

-- A creation of a role that fails or panics leaves the committed database as it was.
pub create_role_keeps :
    (meta : Option AuditMeta) (actor : Option AuditUser) (input : CreateRoleInput) (w : World)
    → is_ok (create_role meta actor input w).0 ≡ false
    → (create_role meta actor input w).1.base ≡ w.base
create_role_keeps meta actor input w = (create_role-Atomic meta actor input).at w

-- An assignment of a permission that fails or panics leaves the committed database as it was.
pub assign_permission_keeps :
    (meta : Option AuditMeta) (actor : Option AuditUser) (role perm : ℕ) (w : World)
    → is_ok (assign_permission meta actor role perm w).0 ≡ false
    → (assign_permission meta actor role perm w).1.base ≡ w.base
assign_permission_keeps meta actor role perm w =
    (assign_permission-Atomic meta actor role perm).at w
