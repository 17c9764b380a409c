-- ===== src/Seed.antt =====
-- internal/infrastructure/storage/seed.go: the roles, the permissions, the grants and the
-- administrator that the server makes sure of when it starts. `uuid.New` and the clock are read where
-- the code reads them; the table of grants is an argument, since a map has no order.
use portal_backend.Prelude.{
  ℕ, Bool, true, false, List, [], ◌∷◌, ◌++◌, Option, none, some, first, any, update_where, ◌==◌,
  if◌then◌else◌,
}
use portal_backend.Text.{Text, codes, text_eq, trim_space, to_lower}
use portal_backend.Domain.{
  RoleCode, role_code_admin, role_code_user, PermissionCode, permission_text, all_permissions,
  user_permissions, active,
}
use portal_backend.Errors.{driver}
use portal_backend.Model.{Role, Permission, User, no_role}
use portal_backend.World.{
  World, M, ok, err, base_ctx, fresh, moment, pure, ◌>>=◌, ◌>>◌, ask, query, write, nullable,
  or_none,
}
use portal_backend.Repo.{found}
use portal_backend.Repo.Roles
pub mod Grants

-- what the configuration says of the administrator
pub record AdminConfig : Type 0 where
  pub admin_email : Text
  pub admin_password : Text

abbrev pub update_role : ℕ → Role → M (Unit {0})
update_role i r =
    write base_ctx (λ w db. ok tt)
      (λ w db. record db {
        roles =
            update_where (λ old. old.id == i)
              (λ old. record old { name = r.name; is_system = r.is_system }) db.roles;
      })

-- a role that is there gets its name and is a system role, another is created
abbrev pub seed_found_role : Role → Option Role → M (Unit {0})
seed_found_role r (some existing) = update_role existing.id r
seed_found_role r none = Roles.create base_ctx r

unfoldable pub seed_role : Role → M (Unit {0})
seed_role r = do
  existing ← nullable (query base_ctx (λ w db. found (first (λ v. text_eq v.code r.code) db.roles)))
  seed_found_role r existing

abbrev pub system_role : ℕ → RoleCode → Text → Role
system_role i code name = record { id = i; code = code; name = name; is_system = true }

-- SeedRoles
unfoldable pub seed_roles : M (Unit {0})
seed_roles = do
  admin ← ask fresh
  user ← ask fresh
  seed_role (system_role admin role_code_admin (codes "Admin"))
  seed_role (system_role user role_code_user (codes "User"))

abbrev pub find_permission : Text → M Permission
find_permission code =
    query base_ctx (λ w db. found (first (λ p. text_eq p.code code) db.permissions))

-- FirstOrCreate: a permission that is there gets the code as its name, another is created
abbrev pub seed_found_permission : ℕ → Text → Option Permission → M (Unit {0})
seed_found_permission i code (some existing) =
    write base_ctx (λ w db. ok tt)
      (λ w db. record db {
        permissions =
            update_where (λ p. p.id == existing.id) (λ p. record p { name = code }) db.permissions;
      })
seed_found_permission i code none =
    write base_ctx
      (λ w db. if any (λ p. text_eq p.code code) db.permissions then err driver else ok tt)
      (λ w db. record db {
        permissions = db.permissions ++ record { id = i; code = code; name = code } ∷ [];
      })

unfoldable pub seed_permission : PermissionCode → M (Unit {0})
seed_permission p = do
  i ← ask fresh
  existing ← nullable (find_permission (codes (permission_text p)))
  seed_found_permission i (codes (permission_text p)) existing

unfoldable pub seed_each_permission : List PermissionCode → M (Unit {0})
seed_each_permission [] = pure tt
seed_each_permission (p ∷ ps) = do seed_permission p; seed_each_permission ps

-- SeedPermissions
unfoldable pub seed_permissions : M (Unit {0})
seed_permissions = seed_each_permission all_permissions

-- the grant of one permission, which does nothing on a conflict
unfoldable pub seed_grant : ℕ → PermissionCode → M (Unit {0})
seed_grant role p = do
  perm ← find_permission (codes (permission_text p))
  Roles.assign_permission base_ctx role perm.id

unfoldable pub seed_grants : ℕ → List PermissionCode → M (Unit {0})
seed_grants role [] = pure tt
seed_grants role (p ∷ ps) = do seed_grant role p; seed_grants role ps

-- SeedRolePermissions, for a table in the order in which it is read
unfoldable pub seed_role_permissions : List (RoleCode × List PermissionCode) → M (Unit {0})
seed_role_permissions [] = pure tt
seed_role_permissions ((code, perms) ∷ table) = do
  role ← Roles.find_by_code base_ctx code
  seed_grants role.id perms
  seed_role_permissions table

-- domain.RolePermissions, in one order
abbrev pub role_permissions : List (RoleCode × List PermissionCode)
role_permissions = (role_code_admin, all_permissions) ∷ (role_code_user, user_permissions) ∷ []

abbrev pub admin_user : ℕ → Text → Text → ℕ → ℕ → User
admin_user i email hash role_id now = record {
  id = i;
  email = email;
  username = codes "admin";
  first_name = codes "System";
  last_name = codes "Admin";
  dob = none;
  password_hash = some hash;
  role_id = role_id;
  role = no_role;
  status = active;
  email_verified_at = some now;
  last_login_at = none;
  deleted_at = none;
  deleted_by = none;
}

abbrev pub is_live_email : Text → User → Bool
is_live_email email u = elim u.deleted_at [ none ↦ text_eq u.email email | some t ↦ false ]

-- the administrator's row, where there is none of the address
abbrev pub seed_found_admin : AdminConfig → Text → Option User → M (Unit {0})
seed_found_admin cfg email (some existing) = pure tt
seed_found_admin cfg email none = do
  hash ← ask (λ w. w.env.bcrypt_generate w.step cfg.admin_password)
  h ← or_none driver hash
  now ← ask moment
  role ← Roles.find_by_code base_ctx role_code_admin
  i ← ask fresh
  write base_ctx
      (λ w db.
        if any (λ u. text_eq u.email email) db.users
        then err driver
        else if any (λ u. text_eq u.username (codes "admin")) db.users
        then err driver
        else ok tt)
      (λ w db. record db { users = db.users ++ admin_user i email h role.id now ∷ [] })

-- SeedAdmin
unfoldable pub seed_admin : AdminConfig → M (Unit {0})
seed_admin cfg = do
  email ← ask (λ w. to_lower w.env.lower (trim_space cfg.admin_email))
  existing ← nullable (query base_ctx (λ w db. found (first (is_live_email email) db.users)))
  seed_found_admin cfg email existing
