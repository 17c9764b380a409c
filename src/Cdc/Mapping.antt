-- ===== src/Cdc/Mapping.antt =====
-- internal/infrastructure/elasticsearch: the bodies that user_indexer.go and audit_indexer.go create
-- an index with, the fields in the order of the source
use portal_backend.Prelude.{Bool, false, List, [], ◌∷◌}
use portal_backend.Text.{Text, codes}

-- `text_and k` is a text with a sub-field "keyword" of the kind `k`; an object is enabled
pub data FieldKind : Type 0 where
  keyword full_text date ip object : FieldKind
  normalized : Text → FieldKind
  text_and : FieldKind → FieldKind

-- a custom normalizer with its filters
pub record Normalizer : Type 0 where
  pub name : Text
  pub filters : List Text

pub record IndexBody : Type 0 where
  pub normalizers : List Normalizer
  pub dynamic : Bool
  pub properties : List (Text × FieldKind)

abbrev pub user_mapping : IndexBody
user_mapping = record {
  normalizers =
      record {
        name = codes "lowercase_normalizer";
        filters = codes "lowercase" ∷ codes "asciifolding" ∷ [];
      }
      ∷ [];
  dynamic = false;
  properties =
      (codes "id", keyword)
      ∷ (codes "email", normalized (codes "lowercase_normalizer"))
      ∷ (codes "username", normalized (codes "lowercase_normalizer"))
      ∷ (codes "first_name", text_and (normalized (codes "lowercase_normalizer")))
      ∷ (codes "last_name", text_and (normalized (codes "lowercase_normalizer")))
      ∷ (codes "full_name", full_text)
      ∷ (codes "dob", date)
      ∷ (codes "role_id", keyword)
      ∷ (codes "status", keyword)
      ∷ (codes "email_verified_at", date)
      ∷ (codes "last_login_at", date)
      ∷ (codes "created_at", date)
      ∷ (codes "updated_at", date)
      ∷ (codes "deleted_at", date)
      ∷ (codes "deleted_by", keyword)
      ∷ [];
}

abbrev pub audit_log_mapping : IndexBody
audit_log_mapping = record {
  normalizers = [];
  dynamic = false;
  properties =
      (codes "id", keyword)
      ∷ (codes "action", keyword)
      ∷ (codes "actor_user_id", keyword)
      ∷ (codes "actor_username", text_and keyword)
      ∷ (codes "actor_email", keyword)
      ∷ (codes "actor_role", keyword)
      ∷ (codes "target_user_id", keyword)
      ∷ (codes "target_username", text_and keyword)
      ∷ (codes "target_email", keyword)
      ∷ (codes "target_role", keyword)
      ∷ (codes "metadata", object)
      ∷ (codes "ip_address", ip)
      ∷ (codes "user_agent", full_text)
      ∷ (codes "created_at", date)
      ∷ [];
}
