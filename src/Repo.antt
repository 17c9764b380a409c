-- ===== src/Repo.antt =====
-- internal/repository/impl: the queries and statements of the repositories over the tables. The
-- context says whether a call runs in the open transaction (getDB).
use portal_backend.Prelude.{ℕ, Bool, List, Option, none, some, any, if◌then◌else◌}
use portal_backend.Text.{Text, trim_space, to_lower}
use portal_backend.Errors.{not_found}
use portal_backend.World.{World, Outcome, ok, err}
pub mod Users
pub mod Roles
pub mod Tokens
pub mod Sessions
pub mod Refresh
pub mod Outbox
pub mod Audit
pub mod Statements
pub mod Closed
pub mod Updates

-- First(&row): repository.ErrNotFound where no row is found.
abbrev pub found : {A : Type 0} → Option A → Outcome A
found none = err not_found
found (some a) = ok a

-- RowsAffected == 0 is repository.ErrNotFound.
abbrev pub affecting : {A : Type 0} → (A → Bool) → List A → Outcome (Unit {0})
affecting p rows = if any p rows then ok tt else err not_found

-- normalizeEmail and normalizeUsername
unfoldable pub normalize : World → Text → Text
normalize w s = to_lower w.env.lower (trim_space s)
