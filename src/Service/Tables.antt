-- ===== src/Service/Tables.antt =====
-- internal/service/audit.go: the tables that the audit logger changes.
use Prim.Native.String.{String}
use portal_backend.Prelude.{
  List, Option, none, some, ◌≡◌, refl, true, arith, Option-cases, inl, inr,
}
use portal_backend.Domain.{ActionName}
use portal_backend.Model.{Db, Json, AuditLog}
use portal_backend.World.{World, Ctx, base_ctx, tx_ctx, ◌>>=◌, or_none, write}
use portal_backend.World.Atomic.{no_panic}
use portal_backend.Repo.Audit
use portal_backend.Service.Audit.{AuditMeta, AuditUser, log, log_with_metadata, marshal_data}

-- The same rows in every table but that of the audit logs.
pub record SameTables (a b : Db) : Type 0 where
  pub users : a.users ≡ b.users
  pub roles : a.roles ≡ b.roles
  pub role_permissions : a.role_permissions ≡ b.role_permissions
  pub user_tokens : a.user_tokens ≡ b.user_tokens
  pub auth_sessions : a.auth_sessions ≡ b.auth_sessions
  pub refresh_tokens : a.refresh_tokens ≡ b.refresh_tokens
  pub outbox_events : a.outbox_events ≡ b.outbox_events

pub SameTables-refl : (a : Db) → SameTables a a
SameTables-refl a = record {
  users = refl;
  roles = refl;
  role_permissions = refl;
  user_tokens = refl;
  auth_sessions = refl;
  refresh_tokens = refl;
  outbox_events = refl;
}

create-SameTables :
    (c : Ctx) (l : AuditLog) (w : World)
    → SameTables (Audit.create c l w).1.base w.base × SameTables (Audit.create c l w).1.tx w.tx
unfolding Audit.create write
create-SameTables base_ctx l w = ground arith
create-SameTables tx_ctx l w = ground arith

pub log-SameTables :
    (c : Ctx) (meta : Option AuditMeta) (a : ActionName) (actor target : Option AuditUser)
    (w : World)
    → SameTables (log c meta a actor target w).1.base w.base
      × SameTables (log c meta a actor target w).1.tx w.tx
unfolding log
log-SameTables c meta a actor target w = create-SameTables c _ w

pub log_with_metadata-SameTables :
    (c : Ctx) (meta : Option AuditMeta) (a : ActionName) (actor target : Option AuditUser)
    (d : Option (List (String × Json))) (w : World)
    → SameTables (log_with_metadata c meta a actor target d w).1.base w.base
      × SameTables (log_with_metadata c meta a actor target d w).1.tx w.tx
unfolding log_with_metadata marshal_data ◌>>=◌ or_none
log_with_metadata-SameTables c meta a actor target none w = create-SameTables c _ w
log_with_metadata-SameTables c meta a actor target (some d) w =
    elim (Option-cases (w.env.marshal_fields d)) [
      | inl e ↦ rw (e, or_none) (SameTables-refl w.base, SameTables-refl w.tx)
      | inr (t, e) ↦ rw (e, or_none) (create-SameTables c _ w)
    ]

-- Logging fails at worst: it never panics.
pub no_panic-log :
    (c : Ctx) (meta : Option AuditMeta) (a : ActionName) (actor target : Option AuditUser)
    (w : World)
    → no_panic (log c meta a actor target w).0 ≡ true
unfolding log Audit.create write
no_panic-log c meta a actor target w = ground arith
