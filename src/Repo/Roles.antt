-- ===== src/Repo/Roles.antt =====
-- internal/repository/impl/role_repository.go and permission_repository.go
use portal_backend.Prelude.{
  ℕ, Bool, ◌&&◌, List, ◌∷◌, ◌++◌, [], Option, none, some, any, first, select, delete_where, ◌==◌,
  if◌then◌else◌,
}
use portal_backend.Text.{Text, text_eq}
use portal_backend.Errors.{driver}
use portal_backend.Model.{Role, Permission, RolePermission, Db}
use portal_backend.World.{World, Outcome, ok, err, M, Ctx, query, write}
use portal_backend.Repo.{found}

-- the unique indexes of the model: the key and the code
unfoldable pub create : Ctx → Role → M (Unit {0})
create c r =
    write c (λ w db. if any (λ v. text_eq v.code r.code) db.roles then err driver else ok tt)
      (λ w db. record db { roles = db.roles ++ r ∷ [] })

unfoldable pub find_by_code : Ctx → Text → M Role
find_by_code c code = query c (λ w db. found (first (λ r. text_eq r.code code) db.roles))

unfoldable pub find_by_id : Ctx → ℕ → M Role
find_by_id c i = query c (λ w db. found (first (λ r. r.id == i) db.roles))

abbrev pub granted : ℕ → ℕ → RolePermission → Bool
granted r p g = g.role_id == r && g.permission_id == p

-- the permissions that the join table gives to a role
abbrev pub permissions_of : Db → ℕ → List Permission
permissions_of db r = select (λ p. any (granted r p.id) db.role_permissions) db.permissions

abbrev pub with_permissions : Db → Role → Role × List Permission
with_permissions db r = (r, permissions_of db r.id)

abbrev pub found_with_permissions : Db → Option Role → Outcome (Role × List Permission)
found_with_permissions db none = found none
found_with_permissions db (some r) = ok (with_permissions db r)

abbrev pub insert_by_name : World → Role → List Role → List Role
insert_by_name w r [] = r ∷ []
insert_by_name w r (s ∷ ss) =
    if w.env.sql_le r.name s.name then r ∷ s ∷ ss else s ∷ insert_by_name w r ss

-- ORDER BY name
unfoldable pub by_name : World → List Role → List Role
by_name w [] = []
by_name w (r ∷ rs) = insert_by_name w r (by_name w rs)

-- Preload("Permissions")
abbrev pub preload_permissions : Db → List Role → List (Role × List Permission)
preload_permissions db [] = []
preload_permissions db (r ∷ rs) = with_permissions db r ∷ preload_permissions db rs

unfoldable pub list : Ctx → M (List (Role × List Permission))
unfolding by_name
list c = query c (λ w db. ok (preload_permissions db (by_name w db.roles)))

unfoldable pub get_with_permissions : Ctx → ℕ → M (Role × List Permission)
get_with_permissions c i =
    query c (λ w db. found_with_permissions db (first (λ r. r.id == i) db.roles))

-- FirstOrCreate
unfoldable pub assign_permission : Ctx → ℕ → ℕ → M (Unit {0})
assign_permission c r p =
    write c (λ w db. ok tt)
      (λ w db. if any (granted r p) db.role_permissions then db else record db {
        role_permissions = db.role_permissions ++ record { role_id = r; permission_id = p } ∷ [];
      })

unfoldable pub remove_permission : Ctx → ℕ → ℕ → M (Unit {0})
remove_permission c r p =
    write c (λ w db. ok tt)
      (λ w db. record db { role_permissions = delete_where (granted r p) db.role_permissions })

-- A role that a user row still names cannot be deleted (OnDelete:RESTRICT); its grants go with it
-- (OnDelete:CASCADE).
unfoldable pub delete : Ctx → ℕ → M (Unit {0})
delete c i =
    write c (λ w db. if any (λ u. u.role_id == i) db.users then err driver else ok tt)
      (λ w db. record db {
        roles = delete_where (λ r. r.id == i) db.roles;
        role_permissions = delete_where (λ g. g.role_id == i) db.role_permissions;
      })

unfoldable pub find_permission_by_id : Ctx → ℕ → M Permission
find_permission_by_id c i = query c (λ w db. found (first (λ p. p.id == i) db.permissions))

abbrev pub insert_permission : World → Permission → List Permission → List Permission
insert_permission w p [] = p ∷ []
insert_permission w p (q ∷ qs) =
    if w.env.sql_le p.name q.name then p ∷ q ∷ qs else q ∷ insert_permission w p qs

unfoldable pub permissions_by_name : World → List Permission → List Permission
permissions_by_name w [] = []
permissions_by_name w (p ∷ ps) = insert_permission w p (permissions_by_name w ps)

unfoldable pub list_permissions : Ctx → M (List Permission)
unfolding permissions_by_name
list_permissions c = query c (λ w db. ok (permissions_by_name w db.permissions))
