-- ===== src/Tests/Users.antt =====
-- Runs of the operations of internal/service/user.go.
use portal_backend.Prelude.{refl, [], ◌∷◌, none, some}
use portal_backend.Text
use portal_backend.World
use portal_backend.World.{World}
use portal_backend.Repo
use portal_backend.Repo.Users
use portal_backend.Repo.Audit
use portal_backend.Service
use portal_backend.Service.Audit as AuditLogger
use portal_backend.Service.UserService
use portal_backend.Service.UserService.Effects.{Changed, change_password_changes}
use portal_backend.Tests.{calm, user_10}

abbrev after_change : World
after_change =
    (UserService.change_password none (some user_10) (0x70 ∷ []) (0x71 ∷ []) (0x71 ∷ []) calm).1

change_password_changes_example : Changed calm 10 (0x70 ∷ []) (0x71 ∷ []) after_change.base
unfolding UserService.change_password UserService.hash_password World.◌>>=◌ World.map_err
    World.log_err World.ask World.query World.write World.with_tx World.or_none World.ensure
    World.deref World.nullable World.unless_not_found Users.find_by_id Users.preload
    Users.update_password Audit.create AuditLogger.log AuditLogger.audit_row
    AuditLogger.map_user_to_audit_user Repo.normalize Service.normalize_identity Text.to_lower
    Text.trim_space Text.is_space Text.trim_left Text.trim_right
change_password_changes_example =
    change_password_changes none user_10 (0x70 ∷ []) (0x71 ∷ []) (0x71 ∷ []) calm after_change refl
