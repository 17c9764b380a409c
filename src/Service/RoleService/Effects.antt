-- ===== src/Service/RoleService/Effects.antt =====
-- What a role operation that returns has done.
use portal_backend.Prelude.{
  ℕ, ◌≡◌, refl, Bool, true, false, List, [], ◌∷◌, ◌++◌, Option, none, some, any, first,
  update_where, delete_where, any-delete_where, any-append_one, ◌==◌, arith, if◌then◌else◌,
}
use portal_backend.Errors.{Error}
use portal_backend.Model.{Db, Role, User, RolePermission}
use portal_backend.World.{World, Outcome, M, ok, err}
use portal_backend.World.Returns.{
  Returns, Returns-ok, Returns-bind, Returns-map_err, Returns-query, Returns-write, Returns-ensure,
  Returns-with_tx, Returns-always, Returns-mono, Returns-pure,
}
use portal_backend.Repo.Updates.{found-some}
use portal_backend.Repo.Roles
use portal_backend.Repo.Roles.{granted}
use portal_backend.Repo.Users
use portal_backend.Service.Audit.{AuditMeta, AuditUser}
use portal_backend.Service.Tables.{log_with_metadata-SameTables, SameTables}
use portal_backend.Service.RoleService.{
  assign_permission, remove_permission, move_users, delete_role,
}

grant : ℕ → ℕ → RolePermission
grant role perm = record { role_id = role; permission_id = perm }

granted-grant :
    (role perm : ℕ) (gs : List RolePermission) (b : Bool)
    → any (granted role perm) gs ≡ b
    → (db : Db) → db.role_permissions ≡ gs
    → any
        (granted role perm)
        (if b then db else record db {
          role_permissions = db.role_permissions ++ grant role perm ∷ [];
        }).role_permissions
      ≡ true
unfolding grant
granted-grant role perm gs true h db e = rw e h
granted-grant role perm gs false h db e =
    ground (arith, any-append_one (granted role perm) gs (grant role perm), e)

-- The role exists and is no system role.
abbrev pub Modifiable : ℕ → Db → Type 0
Modifiable role db =
    (r : Role) × (first (λ r. r.id == role) db.roles ≡ some r) × (r.is_system ≡ false)

module _ (meta : Option AuditMeta) (actor : Option AuditUser) (role perm : ℕ) where
  assign_permission-Returns :
      (w : World)
      → Returns (assign_permission meta actor role perm) w (λ _ w'.
        Modifiable role w.base × (any (granted role perm) w'.base.role_permissions ≡ true))
  unfolding assign_permission Roles.find_by_id Roles.find_permission_by_id Roles.assign_permission
      grant
  assign_permission-Returns w = Returns-with_tx _ (
      Returns-bind (
        Returns-map_err _ _ (
          Returns-query _ _ λ r is_role. Returns-bind (
            Returns-map_err _ _ (
              Returns-query _ _ λ p is_perm. Returns-bind (
                Returns-ensure _ _ λ modifiable. Returns-bind (
                  Returns-map_err _ _ (
                    Returns-write _ _ _ λ _ _. Returns-always _ λ _. (
                      (r, found-some _ r is_role, ground arith),
                      rw ((log_with_metadata-SameTables _ _ _ _ _ _ _).1.role_permissions)
                          (granted-grant role perm _ _ refl w.base refl),
                    )))))))))

  remove_permission-Returns :
      (w : World)
      → Returns (remove_permission meta actor role perm) w (λ _ w'.
        Modifiable role w.base × (any (granted role perm) w'.base.role_permissions ≡ false))
  unfolding remove_permission Roles.find_by_id Roles.find_permission_by_id Roles.remove_permission
  remove_permission-Returns w = Returns-with_tx _ (
      Returns-bind (
        Returns-map_err _ _ (
          Returns-query _ _ λ r is_role. Returns-bind (
            Returns-map_err _ _ (
              Returns-query _ _ λ p is_perm. Returns-bind (
                Returns-ensure _ _ λ modifiable. Returns-bind (
                  Returns-map_err _ _ (
                    Returns-write _ _ _ λ _ _. Returns-always _ λ _. (
                      (r, found-some _ r is_role, ground arith),
                      rw ((log_with_metadata-SameTables _ _ _ _ _ _ _).1.role_permissions)
                          (any-delete_where (granted role perm) w.base.role_permissions),
                    )))))))))

  -- Where assigning a permission returns, the role existed and was no system role, and it has the
  -- permission from then on.
  pub assign_permission_grants :
      (w w' : World)
      → assign_permission meta actor role perm w ≡ (ok tt, w')
      → Modifiable role w.base × (any (granted role perm) w'.base.role_permissions ≡ true)
  assign_permission_grants w w' = Returns-ok tt w' (assign_permission-Returns w)

  -- Where removing one returns, the role existed and was no system role, and it no longer has the
  -- permission.
  pub remove_permission_revokes :
      (w w' : World)
      → remove_permission meta actor role perm w ≡ (ok tt, w')
      → Modifiable role w.base × (any (granted role perm) w'.base.role_permissions ≡ false)
  remove_permission_revokes w w' = Returns-ok tt w' (remove_permission-Returns w)

  -- the two operations on a grant
  abbrev change_grant : Bool → M (Unit {0})
  change_grant give =
      if give
      then assign_permission meta actor role perm
      else remove_permission meta actor role perm

  -- Where assigning or removing a permission returns, the role existed and was no system role, and it
  -- has the permission from then on if it was assigned, and has it no longer if it was removed.
  pub grant_is_changed :
      (give : Bool) (w w' : World)
      → change_grant give w ≡ (ok tt, w')
      → Modifiable role w.base × (any (granted role perm) w'.base.role_permissions ≡ give)
  grant_is_changed true w w' = assign_permission_grants w w'
  grant_is_changed false w w' = remove_permission_revokes w w'

-- the users once those of the role have moved to its replacement
abbrev pub moved_users : ℕ → Option ℕ → List User → List User
moved_users role none us = us
moved_users role (some r) us =
    update_where (λ v. v.role_id == role) (λ v. record v { role_id = r }) us

move_users-Returns :
    (role : ℕ) (replacement : Option ℕ) (w : World)
    → Returns (move_users role replacement) w (λ _ w'.
      (w'.tx.users ≡ moved_users role replacement w.tx.users) × (w'.tx.roles ≡ w.tx.roles))
unfolding move_users Roles.find_by_id Users.update_role_by_role_id_unscoped
move_users-Returns role none w = Returns-pure (refl, refl)
move_users-Returns role (some r) w = Returns-bind (
    Returns-ensure _ _ λ other. Returns-bind (
      Returns-map_err _ _ (
        Returns-query _ _
          λ target is_role. Returns-map_err _ _ (Returns-write _ _ _ (λ _ _. (refl, refl))))))

unused_if :
    (b : Bool) (e : Error) (a : Unit {0}) (r : Outcome (Unit {0}))
    → (if b then err e else ok tt) ≡ r
    → r ≡ ok a
    → b ≡ false
unused_if true e a r h k = cc
unused_if false e a r h k = refl

-- What a role's deletion leaves: no such role, no user of it and none of its grants, and every
-- user where it was but for the move to the replacement.
abbrev pub Deleted : ℕ → Option ℕ → Db → Db → Type 0
Deleted role replacement old new =
    (any (λ r. r.id == role) new.roles ≡ false)
    × (any (λ u. u.role_id == role) new.users ≡ false)
    × (any (λ g. g.role_id == role) new.role_permissions ≡ false)
    × (new.users ≡ moved_users role replacement old.users)

delete_end :
    (role : ℕ) (replacement : Option ℕ) (old d new : Db)
    → d.users ≡ moved_users role replacement old.users
    → any (λ u. u.role_id == role) d.users ≡ false
    → SameTables new (record d {
      roles = delete_where (λ r. r.id == role) d.roles;
      role_permissions = delete_where (λ g. g.role_id == role) d.role_permissions;
    })
    → Deleted role replacement old new
delete_end role replacement old d new moved unused same = (
  rw same.roles (any-delete_where (λ r. r.id == role) d.roles),
  rw same.users unused,
  rw same.role_permissions (any-delete_where (λ g. g.role_id == role) d.role_permissions),
  rw same.users moved,
)

delete_role-Returns :
    (meta : Option AuditMeta) (actor : Option AuditUser) (role : ℕ) (replacement : Option ℕ)
    (w : World)
    → Returns
        (delete_role meta actor role replacement)
        w
        (λ _ w'. Modifiable role w.base × Deleted role replacement w.base w'.base)
unfolding delete_role Roles.find_by_id Users.exists_by_role_id_unscoped Roles.delete
delete_role-Returns meta actor role replacement w = Returns-bind (
    Returns-map_err _ _ (
      Returns-query _ _ λ r is_role. Returns-bind (
        Returns-ensure _ _ λ modifiable. Returns-bind (
          Returns-map_err _ _ (
            Returns-query _ _ λ used is_used. Returns-bind (
              Returns-ensure _ _ λ replaced. Returns-with_tx _ (
                Returns-bind (
                  Returns-mono (move_users-Returns role replacement _) λ _ w1 moved. Returns-bind (
                    Returns-map_err _ _ (
                      Returns-write _ _ _ λ a unused. Returns-always _ λ _. (
                        (r, found-some _ r is_role, ground arith),
                        delete_end role replacement w.base w1.tx _ moved.0
                            (unused_if _ _ a _ refl unused)
                            (log_with_metadata-SameTables _ _ _ _ _ _ _).1,
                      )))))))))))

-- Where deleting a role returns, the role existed and was no system role, and the database is that
-- of its deletion: the role, its grants and its users are gone from it, the latter to the
-- replacement.
pub delete_role_deletes :
    (meta : Option AuditMeta) (actor : Option AuditUser) (role : ℕ) (replacement : Option ℕ)
    (w w' : World)
    → delete_role meta actor role replacement w ≡ (ok tt, w')
    → Modifiable role w.base × Deleted role replacement w.base w'.base
delete_role_deletes meta actor role replacement w w' =
    Returns-ok tt w' (delete_role-Returns meta actor role replacement w)
