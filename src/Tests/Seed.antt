-- ===== src/Tests/Seed.antt =====
-- A run of the seeds of internal/infrastructure/storage/seed.go.
use portal_backend.Prelude.{List, [], ◌∷◌, refl}
use portal_backend.Domain.{RoleCode, PermissionCode, user_list}
use portal_backend.World
use portal_backend.World.{World, Outcome}
use portal_backend.Repo.Roles
use portal_backend.Seed
use portal_backend.Seed.Grants.{Grown, AllSeeded, seed_role_permissions_grants}
use portal_backend.Tests.Access.{guarded}

abbrev table : List (RoleCode × List PermissionCode)
table = (0x47 ∷ [], user_list ∷ []) ∷ []

abbrev run : Outcome (Unit {0}) × World
run = Seed.seed_role_permissions table guarded

seed_role_permissions_grants_example : Grown guarded.base run.1.base × AllSeeded table run.1.base
unfolding Seed.seed_role_permissions Seed.seed_grants Seed.seed_grant Roles.find_by_code
    Roles.assign_permission World.◌>>=◌ World.query World.write
seed_role_permissions_grants_example = seed_role_permissions_grants table guarded run.1 refl
