-- ===== src/Cdc/Replay.antt =====
-- What the documents of an index are meant to be: the changes of the messages, one after the other.
use portal_backend.Prelude.{
  Bool, true, false, not, ◌||◌, ◌&&◌, List, [], ◌∷◌, Option, none, some, is_none, if◌then◌else◌,
}
use portal_backend.Text.{Text, codes, text_eq, is_empty}
use portal_backend.Cdc.Json.{Fields, at_key, text_of}
use portal_backend.Cdc.Documents.{
  UserDocument, user_document_from_debezium_after, audit_log_document_from_debezium_after,
}
use portal_backend.Cdc.Indexer.{Act}
use portal_backend.Cdc.Handlers.{DebeziumEvent, Codec, is_upsert}
use portal_backend.Cdc.Consumer.{
  Message, Fetch, fetched, fetch_error, stopped, Consumer, on_message,
}
pub mod Rules
pub mod Refines
pub mod Router

-- the change of one document: its text, or its removal
pub data Change : Type 0 where
  keep : Change
  put : Text → Text → Change
  remove : Text → Change

-- the documents by their ids
abbrev pub View : Type 0
View = Text → Option Text

abbrev pub apply : Change → View → View
apply keep v id = v id
apply (put i body) v id = if text_eq i id then some body else v id
apply (remove i) v id = if text_eq i id then none else v id

abbrev pub touches : Change → Text → Bool
touches keep id = false
touches (put i body) id = text_eq i id
touches (remove i) id = text_eq i id

abbrev pub replay : List Change → View → View
replay [] v = v
replay (c ∷ cs) v = replay cs (apply c v)

-- a document that could not be written is no change
abbrev pub stored : Text → Option Text → Change
stored id none = keep
stored id (some body) = put id body

abbrev pub put_of : Text → Option Text → Change
put_of id body = if is_empty id then keep else stored id body

abbrev pub removal : Option Fields → Change
removal none = keep
removal (some before) =
    let id = text_of (at_key before (codes "id")) in if is_empty id then keep else remove id

module _ (k : Codec) where
  abbrev pub user_put : Option UserDocument → Change
  user_put none = keep
  user_put (some doc) = put_of doc.id (k.marshal_user doc)

  abbrev pub user_upsert : Option Fields → Change
  user_upsert none = keep
  user_upsert (some after) = user_put (user_document_from_debezium_after k.format_days after)

  abbrev pub audit_upsert : Option Fields → Change
  audit_upsert none = keep
  audit_upsert (some after) =
      let doc = audit_log_document_from_debezium_after after in
      put_of doc.id (k.marshal_audit_log doc)

abbrev pub change_of_event : (Option Fields → Change) → Option DebeziumEvent → Change
change_of_event upsert none = keep
change_of_event upsert (some e) =
    if is_upsert e.op
    then upsert e.after
    else if text_eq e.op (codes "d")
    then removal e.before
    else keep

-- the change that a message means for the users, and for the audit logs
abbrev pub user_change : Codec → Text → Change
user_change k value = change_of_event (user_upsert k) (k.unmarshal value)

abbrev pub audit_change : Codec → Text → Change
audit_change k value = change_of_event (audit_upsert k) (k.unmarshal value)

abbrev pub change_on : Text → Text → (Text → Change) → (Text → Change) → Message → Change
change_on first second f g m =
    if text_eq first m.topic then f m.value else if text_eq second m.topic then g m.value else keep

-- the changes of what the reader gives
abbrev pub changes : (Message → Change) → List Fetch → List Change
changes change [] = []
changes change (stopped ∷ inputs) = []
changes change (fetch_error ∷ inputs) = changes change inputs
changes change (fetched m commits ∷ inputs) = change m ∷ changes change inputs

module _ {S : Type 0} (handle : Text → Text → Act S) (change : Message → Change) where
  -- each message that changes the document is handled without an error
  unfoldable pub settled : Text → List Fetch → Consumer S → Bool
  settled id [] c = true
  settled id (stopped ∷ inputs) c = true
  settled id (fetch_error ∷ inputs) c = settled id inputs c
  settled id (fetched m commits ∷ inputs) c =
      (not (touches (change m) id) || is_none (handle m.topic m.value c.store).0)
      && settled id inputs (on_message handle m commits c)
