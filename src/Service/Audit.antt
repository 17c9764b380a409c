-- ===== src/Service/Audit.antt =====
-- internal/service/audit.go and audit_types.go: the audit logger
use Prim.Native.String.{String}
use portal_backend.Prelude.{ℕ, Bool, false, List, Option, none, some, ltb, ◌==◌, if◌then◌else◌, not}
use portal_backend.Text.{Text}
use portal_backend.Domain.{ActionName, RoleCode}
use portal_backend.Errors.{app, plain, err_invalid_time_range}
use portal_backend.Model.{User, AuditLog, Json}
use portal_backend.World.{M, Ctx, base_ctx, pure, ◌>>=◌, ◌>>◌, ensure, or_none}
use portal_backend.Repo.Audit as AuditRepo
use portal_backend.Repo.Audit.{AuditLogListFilter, clamp_page}

pub record AuditMeta : Type 0 where
  pub ip_address : Text
  pub user_agent : Text

pub record AuditUser : Type 0 where
  pub id : ℕ
  pub username : Text
  pub email : Text
  pub role_code : RoleCode

-- MapUserToAuditUser of a user that is there
unfoldable pub map_user_to_audit_user : User → AuditUser
map_user_to_audit_user u = record {
  id = u.id;
  username = u.username;
  email = u.email;
  role_code = u.role.code;
}

abbrev pub user_field : {A : Type 0} → (AuditUser → A) → Option AuditUser → Option A
user_field f none = none
user_field f (some u) = some (f u)

abbrev pub meta_field : (AuditMeta → Text) → Option AuditMeta → Option Text
meta_field f none = none
meta_field f (some m) = some (f m)

-- the row that both loggers make
unfoldable pub audit_row :
    Option AuditMeta → ActionName → Option AuditUser → Option AuditUser → Option Text → AuditLog
audit_row meta action actor target metadata = record {
  id = 0;
  action = action;
  actor_user_id = user_field (λ u. u.id) actor;
  actor_username = user_field (λ u. u.username) actor;
  actor_email = user_field (λ u. u.email) actor;
  actor_role = user_field (λ u. u.role_code) actor;
  target_user_id = user_field (λ u. u.id) target;
  target_username = user_field (λ u. u.username) target;
  target_email = user_field (λ u. u.email) target;
  target_role = user_field (λ u. u.role_code) target;
  metadata = metadata;
  ip_address = meta_field (λ m. m.ip_address) meta;
  user_agent = meta_field (λ m. m.user_agent) meta;
  created_at = 0;
}

unfoldable pub log :
    Ctx → Option AuditMeta → ActionName → Option AuditUser → Option AuditUser → M (Unit {0})
log c meta action actor target = AuditRepo.create c (audit_row meta action actor target none)

-- the marshalled metadata, or the failure of json.Marshal
unfoldable pub marshal_data : Option (List (String × Json)) → M (Option Text)
marshal_data none = pure none
marshal_data (some data_fields) = do
  text ← λ w. or_none (plain "json") (w.env.marshal_fields data_fields) w
  pure (some text)

unfoldable pub log_with_metadata :
    Ctx
    → Option AuditMeta
    → ActionName
    → Option AuditUser
    → Option AuditUser
    → Option (List (String × Json))
    → M (Unit {0})
log_with_metadata c meta action actor target fields = do
  metadata ← marshal_data fields
  AuditRepo.create c (audit_row meta action actor target metadata)

-- `From` and `To` are both given and `From` is after `To`
abbrev pub is_backwards : Option ℕ → Option ℕ → Bool
is_backwards (some from) (some to) = ltb to from
is_backwards _ _ = false

unfoldable pub list : AuditLogListFilter → M (List AuditLog × ℕ)
list f = do
  ensure (not (is_backwards f.from_time f.to_time)) (app err_invalid_time_range)
  AuditRepo.list base_ctx (record f {
    page = clamp_page f.page;
    page_size = if f.page_size == 0 then 20 else f.page_size;
  })
