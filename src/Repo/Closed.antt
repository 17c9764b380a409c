-- ===== src/Repo/Closed.antt =====
-- A session that is closed: no row of it is unrevoked.
pub mod Accounts
pub mod Sessions
use portal_backend.Prelude.{ℕ, ◌≡◌, false, any, ◌==◌}
use portal_backend.Model.{Db}
use portal_backend.World.{Env}
use portal_backend.Repo.Sessions.{is_unrevoked}

-- no id that is drawn is that of the session, and no row of the session is unrevoked
pub record Closed (s : ℕ) (env : Env) (db : Db) : Type 0 where
  pub not_drawn : (n : ℕ) → (env.uuid n == s) ≡ false
  pub none_left : any (is_unrevoked s) db.auth_sessions ≡ false

pub same_sessions :
    (s : ℕ) {env : Env} {a b : Db}
    → Closed s env a
    → b.auth_sessions ≡ a.auth_sessions
    → Closed s env b
same_sessions s h same = record { not_drawn = h.not_drawn; none_left = rw same h.none_left }
