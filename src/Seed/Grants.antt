-- ===== src/Seed/Grants.antt =====
-- internal/infrastructure/storage/seed.go: the grants where their seeding returns.
use mathlib.Core.Path.{subst}
use portal_backend.Prelude.{
  ℕ, Bool, true, false, ◌≡◌, refl, sym, ap, ◌∙◌, List, [], ◌∷◌, ◌++◌, Option, none, some, first,
  any, arith, any-append_one, if◌then◌else◌, All,
}
use portal_backend.Text.{Text, codes, text_eq}
use portal_backend.Domain.{RoleCode, PermissionCode, permission_text}
use portal_backend.Model.{Db, User, Role, Permission, RolePermission}
use portal_backend.World.{World, ok, tick}
use portal_backend.World.Returns.{
  Returns, Returns-ok, Returns-bind, Returns-query, Returns-write, Returns-pure, Returns-mono,
  Returns-ask, Returns-or_none, Returns-nullable,
}
use portal_backend.World.Atomic.{TxOnly-query}
use portal_backend.Repo.Updates.{found-some}
use portal_backend.Repo.Roles
use portal_backend.Repo.Roles.{granted}
use portal_backend.Seed.{
  AdminConfig, seed_grant, seed_grants, seed_role_permissions, seed_found_admin, seed_admin,
}

-- The role of this code and the permission of this code are there, and the one is granted the other.
abbrev pub Seeded : Db → RoleCode → PermissionCode → Type 0
Seeded db code perm =
    (r : Role) × (first (λ v. text_eq v.code code) db.roles ≡ some r)
    × (p : Permission) × (first (λ q. text_eq q.code (codes (permission_text perm))) db.permissions
        ≡ some p)
    × (any (granted r.id p.id) db.role_permissions ≡ true)

-- The roles and the permissions are the same, and every grant is still there.
pub record Grows (d d' : Db) : Type 0 where
  pub roles : d'.roles ≡ d.roles
  pub permissions : d'.permissions ≡ d.permissions
  pub grants :
      (g : RolePermission → Bool)
      → any g d.role_permissions ≡ true
      → any g d'.role_permissions ≡ true

-- And nothing but the grants has changed.
pub record Grown (d d' : Db) : Type 0 where
  pub only : d' ≡ record d { role_permissions = d'.role_permissions }
  pub grows : Grows d d'

Grows-refl : (d : Db) → Grows d d
Grows-refl d = record { roles = refl; permissions = refl; grants = λ g h. h }

Grows-trans : (a b c : Db) → Grows a b → Grows b c → Grows a c
Grows-trans a b c h k = record {
  roles = k.roles ∙ h.roles;
  permissions = k.permissions ∙ h.permissions;
  grants = λ g t. k.grants g (h.grants g t);
}

Grown-refl : (d : Db) → Grown d d
Grown-refl d = record { only = refl; grows = Grows-refl d }

Grown-trans : (a b c : Db) → Grown a b → Grown b c → Grown a c
Grown-trans a b c h k = record {
  only = k.only ∙ ap {A = Db} (λ d. record d { role_permissions = c.role_permissions }) h.only;
  grows = Grows-trans a b c h.grows k.grows;
}

Seeded-Grows :
    (d d' : Db) (code : RoleCode) (perm : PermissionCode)
    → Grows d d'
    → Seeded d code perm
    → Seeded d' code perm
Seeded-Grows d d' code perm h (r, is_role, p, is_perm, has) =
    (r, rw h.roles is_role, p, rw h.permissions is_perm, h.grants (granted r.id p.id) has)

assign_lem :
    (b : Bool) (d : Db) (r p : ℕ)
    → any (granted r p) d.role_permissions ≡ b
    → let d' : Db = if b then d else record d {
      role_permissions = d.role_permissions ++ record { role_id = r; permission_id = p } ∷ [];
    } in
      Grown d d' × (any (granted r p) d'.role_permissions ≡ true)
assign_lem true d r p h = (Grown-refl d, h)
assign_lem false d r p h = (
  record {
    only = refl;
    grows = record {
      roles = refl;
      permissions = refl;
      grants = λ g t. any-append_one g d.role_permissions _ ∙ ground (arith, t);
    };
  },
  any-append_one (granted r p) d.role_permissions _ ∙ ground (arith, h),
)

-- the role is granted the permission of this code
abbrev Has : Db → ℕ → PermissionCode → Type 0
Has db role perm =
    (p : Permission) × (first (λ q. text_eq q.code (codes (permission_text perm))) db.permissions
      ≡ some p)
    × (any (granted role p.id) db.role_permissions ≡ true)

Has-Grows :
    (d d' : Db) (role : ℕ) (perm : PermissionCode) → Grows d d' → Has d role perm → Has d' role perm
Has-Grows d d' role perm h (p, is_perm, has) =
    (p, rw h.permissions is_perm, h.grants (granted role p.id) has)

seed_grant-Returns :
    (role : ℕ) (perm : PermissionCode) (w : World)
    → Returns (seed_grant role perm) w (λ _ w'. Grown w.base w'.base × Has w'.base role perm)
unfolding seed_grant Roles.assign_permission
seed_grant-Returns role perm w = Returns-bind (
    Returns-query _ _ λ p is_perm. Returns-write _ _ _ λ _ _.
      let done =
        assign_lem (any (granted role p.id) w.base.role_permissions) w.base role p.id refl in
      (done.0, (p, rw done.0.grows.permissions (found-some _ p is_perm), done.1)))

seed_grants-Returns :
    (role : ℕ) (perms : List PermissionCode) (w : World)
    → Returns
        (seed_grants role perms)
        w
        (λ _ w'. Grown w.base w'.base × All (Has w'.base role) perms)
unfolding seed_grants
seed_grants-Returns role [] w = Returns-pure (Grown-refl w.base, tt)
seed_grants-Returns role (p ∷ ps) w = Returns-bind (
    Returns-mono (seed_grant-Returns role p w) λ _ w1 (grows, has).
      Returns-mono (seed_grants-Returns role ps w1) λ _ w2 (grows', all). (
        Grown-trans w.base w1.base w2.base grows grows',
        (Has-Grows w1.base w2.base role p grows'.grows has, all),
      ))

All-Seeded :
    (d d' : Db) (code : RoleCode) (r : Role) (perms : List PermissionCode)
    → Grows d d'
    → first (λ v. text_eq v.code code) d.roles ≡ some r
    → All (Has d' r.id) perms
    → All (Seeded d' code) perms
All-Seeded d d' code r [] h is_role all = tt
All-Seeded d d' code r (p ∷ ps) h is_role ((q, is_perm, has), all) =
    ((r, rw h.roles is_role, q, is_perm, has), All-Seeded d d' code r ps h is_role all)

All-Grows :
    (d d' : Db) (code : RoleCode) (perms : List PermissionCode)
    → Grows d d'
    → All (Seeded d code) perms
    → All (Seeded d' code) perms
All-Grows d d' code [] h all = tt
All-Grows d d' code (p ∷ ps) h (here, all) =
    (Seeded-Grows d d' code p h here, All-Grows d d' code ps h all)

-- Each role of the table has each of its permissions.
abbrev pub AllSeeded : List (RoleCode × List PermissionCode) → Db → Type 0
AllSeeded table db = All (λ entry. All (Seeded db entry.0) entry.1) table

pub AllSeeded-Grows :
    (d d' : Db) (table : List (RoleCode × List PermissionCode))
    → Grows d d'
    → AllSeeded table d
    → AllSeeded table d'
AllSeeded-Grows d d' [] h all = tt
AllSeeded-Grows d d' ((code, perms) ∷ table) h (here, all) =
    (All-Grows d d' code perms h here, AllSeeded-Grows d d' table h all)

pub seed_role_permissions-Returns :
    (table : List (RoleCode × List PermissionCode)) (w : World)
    → Returns
        (seed_role_permissions table)
        w
        (λ _ w'. Grown w.base w'.base × AllSeeded table w'.base)
unfolding seed_role_permissions Roles.find_by_code
seed_role_permissions-Returns [] w = Returns-pure (Grown-refl w.base, tt)
seed_role_permissions-Returns ((code, perms) ∷ table) w = Returns-bind (
    Returns-query _ _ λ r is_role. Returns-bind (
      Returns-mono (seed_grants-Returns r.id perms (tick w)) λ _ w1 (grows, all).
        Returns-mono (seed_role_permissions-Returns table w1) λ _ w2 (grows', later). (
          Grown-trans w.base w1.base w2.base grows grows',
          (
            All-Grows w1.base w2.base code perms grows'.grows
                (All-Seeded w.base w1.base code r perms grows.grows (found-some _ r is_role) all),
            later,
          ),
        )))

-- Where the seeding of the grants returns, in whatever order the table is read, each role of the
-- table is there, and is granted each permission that the table has for it. Nothing but the
-- grants has changed, and none was taken away.
pub seed_role_permissions_grants :
    (table : List (RoleCode × List PermissionCode)) (w w' : World)
    → seed_role_permissions table w ≡ (ok tt, w')
    → Grown w.base w'.base × AllSeeded table w'.base
seed_role_permissions_grants table w w' = Returns-ok tt w' (seed_role_permissions-Returns table w)

Grows-users : (b d : Db) {us : List User} → b ≡ d → Grows d (record b { users = us })
Grows-users b d h = record {
  roles = ap (λ x. x.roles) h;
  permissions = ap (λ x. x.permissions) h;
  grants = λ g t. subst (λ x. any g x.role_permissions ≡ true) (sym h) t;
}

-- the administrator is a user: no role, permission or grant changes
seed_found_admin-Returns :
    (cfg : AdminConfig) (email : Text) (existing : Option User) (d : Db) (w : World)
    → w.base ≡ d
    → Returns (seed_found_admin cfg email existing) w (λ _ w'. Grows d w'.base)
unfolding Roles.find_by_code
seed_found_admin-Returns cfg email (some existing) d w h =
    Returns-pure (subst (Grows d) (sym h) (Grows-refl d))
seed_found_admin-Returns cfg email none d w h = Returns-bind (
    Returns-ask _ (
      Returns-bind (
        Returns-or_none _ _ λ hash _. Returns-bind (
          Returns-ask _ (
            Returns-bind (
              Returns-query _ _ λ role _.
                Returns-bind
                  (Returns-ask _ (Returns-write _ _ _ λ _ _. Grows-users w.base d h))))))))

pub seed_admin-Returns :
    (cfg : AdminConfig) (w : World) → Returns (seed_admin cfg) w (λ _ w'. Grows w.base w'.base)
unfolding seed_admin
seed_admin-Returns cfg w = Returns-bind (
    Returns-ask _ (
      Returns-bind (
        Returns-nullable _ _
          (λ u _.
            seed_found_admin-Returns cfg [] (some u) w.base _ ((TxOnly-query _ _).at (tick w)))
          (λ _. seed_found_admin-Returns cfg _ none w.base _ ((TxOnly-query _ _).at (tick w))))))
