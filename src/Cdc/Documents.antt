-- ===== src/Cdc/Documents.antt =====
-- internal/infrastructure/elasticsearch: user_document.go, audit_document.go and their mappers
use portal_backend.Prelude.{ℤ, Option, none, some, ◌∷◌, ◌++◌}
use portal_backend.Text.{Text, codes, trim_space}
use portal_backend.Cdc.Json.{
  Fields, at_key, map_from_map, string_from_map, string_ptr_from_map, date_from_debezium_days,
}

pub record UserDocument : Type 0 where
  pub id : Text
  pub email : Text
  pub username : Text
  pub first_name : Text
  pub last_name : Text
  pub full_name : Text
  pub dob : Option Text
  pub role_id : Text
  pub status : Text
  pub email_verified_at : Option Text
  pub last_login_at : Option Text
  pub created_at : Text
  pub updated_at : Text
  pub deleted_at : Option Text
  pub deleted_by : Option Text

abbrev pub user_document : Option Text → Fields → UserDocument
user_document dob after = record {
  id = string_from_map after (codes "id");
  email = string_from_map after (codes "email");
  username = string_from_map after (codes "username");
  first_name = string_from_map after (codes "first_name");
  last_name = string_from_map after (codes "last_name");
  full_name = trim_space (
      string_from_map after (codes "first_name")
      ++ (0x20 ∷ string_from_map after (codes "last_name")));
  dob = dob;
  role_id = string_from_map after (codes "role_id");
  status = string_from_map after (codes "status");
  email_verified_at = string_ptr_from_map after (codes "email_verified_at");
  last_login_at = string_ptr_from_map after (codes "last_login_at");
  created_at = string_from_map after (codes "created_at");
  updated_at = string_from_map after (codes "updated_at");
  deleted_at = string_ptr_from_map after (codes "deleted_at");
  deleted_by = string_ptr_from_map after (codes "deleted_by");
}

-- none where the date of birth is no date
unfoldable pub user_document_from_debezium_after : (ℤ → Text) → Fields → Option UserDocument
user_document_from_debezium_after format_days after =
    elim (date_from_debezium_days format_days (at_key after (codes "dob"))) [
      | none ↦ none
      | some dob ↦ some (user_document dob after)
    ]

pub record AuditLogDocument : Type 0 where
  pub id : Text
  pub action : Text
  pub actor_user_id : Option Text
  pub actor_username : Option Text
  pub actor_email : Option Text
  pub actor_role : Option Text
  pub target_user_id : Option Text
  pub target_username : Option Text
  pub target_email : Option Text
  pub target_role : Option Text
  pub metadata : Option Fields
  pub ip_address : Option Text
  pub user_agent : Option Text
  pub created_at : Text

unfoldable pub audit_log_document_from_debezium_after : Fields → AuditLogDocument
audit_log_document_from_debezium_after after = record {
  id = string_from_map after (codes "id");
  action = string_from_map after (codes "action");
  actor_user_id = string_ptr_from_map after (codes "actor_user_id");
  actor_username = string_ptr_from_map after (codes "actor_username");
  actor_email = string_ptr_from_map after (codes "actor_email");
  actor_role = string_ptr_from_map after (codes "actor_role");
  target_user_id = string_ptr_from_map after (codes "target_user_id");
  target_username = string_ptr_from_map after (codes "target_username");
  target_email = string_ptr_from_map after (codes "target_email");
  target_role = string_ptr_from_map after (codes "target_role");
  metadata = map_from_map after (codes "metadata");
  ip_address = string_ptr_from_map after (codes "ip_address");
  user_agent = string_ptr_from_map after (codes "user_agent");
  created_at = string_from_map after (codes "created_at");
}
