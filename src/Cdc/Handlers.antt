-- ===== src/Cdc/Handlers.antt =====
-- internal/infrastructure/cdc: debezium_event.go, user_event_handler.go, audit_event_handler.go and
-- router.go
use portal_backend.Prelude.{ℤ, Bool, ◌||◌, List, [], ◌∷◌, Option, none, some, if◌then◌else◌}
use portal_backend.Text.{Text, codes, text_eq, is_empty}
use portal_backend.Cdc.Json.{Fields, at_key, text_of}
use portal_backend.Cdc.Documents.{
  UserDocument, AuditLogDocument, user_document_from_debezium_after,
  audit_log_document_from_debezium_after,
}
use portal_backend.Cdc.Indexer.{
  Cluster, Act, index_user, delete_user, index_audit_log, delete_audit_log,
}

pub record DebeziumEvent : Type 0 where
  pub before : Option Fields
  pub after : Option Fields
  pub op : Text

-- encoding/json, and the date of a number of days after 1970
pub record Codec : Type 0 where
  pub unmarshal : Text → Option DebeziumEvent
  pub marshal_user : UserDocument → Option Text
  pub marshal_audit_log : AuditLogDocument → Option Text
  pub format_days : ℤ → Text

abbrev pub is_upsert : Text → Bool
is_upsert op = text_eq op (codes "r") || text_eq op (codes "c") || text_eq op (codes "u")

module _ {S : Type 0} (k : Codec) (c : Cluster S) where
  -- an error of the indexer, under the handler's own words
  abbrev pub wrapped : Text → Option Text × S → Option Text × S
  wrapped words (none, s) = (none, s)
  wrapped words (some e, s) = (some words, s)

  -- UserEventHandler: a document without an id is left out
  abbrev pub upsert_user_document : Option UserDocument → Act S
  upsert_user_document none s = (some (codes "map user document"), s)
  upsert_user_document (some doc) s =
      if is_empty doc.id
      then (none, s)
      else wrapped (codes "index user document") (index_user c k.marshal_user doc s)

  unfoldable pub handle_user_upsert : Option Fields → Act S
  handle_user_upsert none s = (none, s)
  handle_user_upsert (some after) s =
      upsert_user_document (user_document_from_debezium_after k.format_days after) s

  unfoldable pub handle_user_delete : Option Fields → Act S
  handle_user_delete none s = (none, s)
  handle_user_delete (some before) s =
      let id = text_of (at_key before (codes "id")) in
      if is_empty id then (none, s) else wrapped (codes "delete user document") (delete_user c id s)

  abbrev pub on_user_event : Option DebeziumEvent → Act S
  on_user_event none s = (some (codes "unmarshal debezium event"), s)
  on_user_event (some e) s =
      if is_upsert e.op
      then handle_user_upsert e.after s
      else if text_eq e.op (codes "d")
      then handle_user_delete e.before s
      else (none, s)

  unfoldable pub handle_user_event : Text → Act S
  handle_user_event value = on_user_event (k.unmarshal value)

  -- AuditLogEventHandler
  unfoldable pub handle_audit_upsert : Option Fields → Act S
  handle_audit_upsert none s = (none, s)
  handle_audit_upsert (some after) s =
      let doc = audit_log_document_from_debezium_after after in
      if is_empty doc.id then (none, s) else index_audit_log c k.marshal_audit_log doc s

  unfoldable pub handle_audit_delete : Option Fields → Act S
  handle_audit_delete none s = (none, s)
  handle_audit_delete (some before) s =
      let id = text_of (at_key before (codes "id")) in
      if is_empty id then (none, s) else delete_audit_log c id s

  abbrev pub on_audit_event : Option DebeziumEvent → Act S
  on_audit_event none s = (some (codes "unmarshal audit log debezium event"), s)
  on_audit_event (some e) s =
      if is_upsert e.op
      then handle_audit_upsert e.after s
      else if text_eq e.op (codes "d")
      then handle_audit_delete e.before s
      else (none, s)

  unfoldable pub handle_audit_event : Text → Act S
  handle_audit_event value = on_audit_event (k.unmarshal value)

abbrev pub unsupported : Text
unsupported = codes "unsupported topic"

-- RouterHandler.Handle, over the handlers by their topics
unfoldable pub route : {S : Type 0} → List (Text × (Text → Act S)) → Text → Text → Act S
route [] topic value s = (some unsupported, s)
route ((name, handler) ∷ rest) topic value s =
    let later = route rest topic value s in if text_eq name topic then handler value s else later

-- a handler of one of two indices
abbrev pub on_first : {S T : Type 0} → Act S → Act (S × T)
on_first act (s, t) = let (e, s') = act s in (e, (s', t))

abbrev pub on_second : {S T : Type 0} → Act T → Act (S × T)
on_second act (s, t) = let (e, t') = act t in (e, (s, t'))

-- the router of app.go. Where the two topics are one, the audit log's handler has it, as it is the
-- later in the map.
unfoldable pub new_router :
    {S T : Type 0} → Codec → Cluster S → Cluster T → Text → Text → Text → Text → Act (S × T)
new_router k users audit_logs user_topic audit_topic = route (
    (audit_topic, λ value. on_second (handle_audit_event k audit_logs value))
    ∷ (user_topic, λ value. on_first (handle_user_event k users value))
    ∷ [])
