-- ===== src/Tests/Cdc.antt =====
-- Runs of the consumer of internal/infrastructure/cdc over an index that is a list of documents.
use mathlib.Core.Path.{subst}
use portal_backend.Prelude.{
  ℕ, Bool, true, false, List, [], ◌∷◌, Option, none, some, ◌≡◌, refl, sym, arith, if◌then◌else◌,
}
use portal_backend.Text.{Text, codes, text_eq}
use portal_backend.Text.Laws.{text_eq_sound}
use portal_backend.Cdc.Json
use portal_backend.Cdc.Json.{no_fields, field, json_text}
use portal_backend.Cdc.Documents
use portal_backend.Cdc.Indexer
use portal_backend.Cdc.Indexer.{Cluster, Act, answered}
use portal_backend.Cdc.Handlers
use portal_backend.Cdc.Handlers.{Codec, DebeziumEvent}
use portal_backend.Cdc.Consumer
use portal_backend.Cdc.Consumer.{Message, Fetch, fetched, fetch_error}
use portal_backend.Cdc.Replay
use portal_backend.Cdc.Replay.{replay, changes, settled}
use portal_backend.Cdc.Replay.Router.{
  router, user_message, users_of, users_are_replayed, redelivery_keeps_users,
}

abbrev Docs : Type 0
Docs = List (Text × Text)

abbrev get : Docs → Text → Option Text
get [] id = none
get ((i, body) ∷ s) id = if text_eq i id then some body else get s id

abbrev without : Text → Docs → Docs
without id [] = []
without id ((i, body) ∷ s) = if text_eq i id then without id s else (i, body) ∷ without id s

removes_one :
    (b : Bool) (i id body : Text) (s s' : Docs)
    → text_eq i id ≡ b
    → get s' id ≡ none
    → get (if b then s' else (i, body) ∷ s') id ≡ none
removes_one true i id body s s' e h = h
removes_one false i id body s s' e h = ground (arith, e, h)

removes : (id : Text) (s : Docs) → get (without id s) id ≡ none
removes id [] = refl
removes id ((i, body) ∷ s) =
    removes_one (text_eq i id) i id body s (without id s) refl (removes id s)

keeps_one :
    (b : Bool) (i id other body : Text) (s s' : Docs)
    → text_eq i id ≡ b
    → text_eq id other ≡ false
    → get s' other ≡ get s other
    → get (if b then s' else (i, body) ∷ s') other ≡ get ((i, body) ∷ s) other
keeps_one true i id other body s s' e no_match h =
    let apart : text_eq i other ≡ false =
      subst (λ t. text_eq t other ≡ false) (sym (text_eq_sound i id e)) no_match in
    ground (arith, apart, h)
keeps_one false i id other body s s' e no_match h = ground (arith, h)

keeps :
    (id : Text) (s : Docs) (other : Text)
    → text_eq id other ≡ false
    → get (without id s) other ≡ get s other
keeps id [] other h = refl
keeps id ((i, body) ∷ s) other h =
    keeps_one (text_eq i id) i id other body s (without id s) refl h (keeps id s other h)

stores :
    (id body : Text) (s : Docs) (other : Text)
    → text_eq id other ≡ true
    → get ((id, body) ∷ s) other ≡ some body
stores id body s other h = ground (arith, h)

keeps_others :
    (id body : Text) (s : Docs) (other : Text)
    → text_eq id other ≡ false
    → get ((id, body) ∷ s) other ≡ get s other
keeps_others id body s other h = ground (arith, h)

abbrev cluster : Cluster Docs
cluster = record {
  exists = λ s. (answered 200, s);
  create = λ body s. (answered 200, s);
  index = λ id body s. (answered 201, (id, body) ∷ s);
  delete = λ id s. (answered 200, without id s);
  get = get;
  index_stores = λ id body s _ other h. stores id body s other h;
  index_keeps = keeps_others;
  delete_removes = λ id s _ other h.
      subst (λ t. get (without id s) t ≡ none) (text_eq_sound id other h) (removes id s);
  delete_keeps = keeps;
}

abbrev row : Json.Fields
row = field (codes "id") (json_text (codes "7")) no_fields

abbrev event_of : Text → Option DebeziumEvent
event_of [] = none
event_of (c ∷ s) = some (record { before = some row; after = some row; op = c ∷ [] })

abbrev codec : Codec
codec = record {
  unmarshal = event_of;
  marshal_user = λ d. some (codes "user");
  marshal_audit_log = λ d. some (codes "log");
  format_days = λ n. [];
}

abbrev users_topic : Text
users_topic = codes "users"

abbrev logs_topic : Text
logs_topic = codes "logs"

abbrev message_at : Text → ℕ → Text → Message
message_at topic offset value = record {
  topic = topic;
  partition = 0;
  offset = offset;
  value = value;
}

-- a user is inserted, an audit log too, and an event cannot be read
abbrev inputs : List Fetch
inputs =
    fetched (message_at users_topic 0 (codes "c")) true
    ∷ fetched (message_at logs_topic 0 (codes "c")) true
    ∷ fetch_error
    ∷ []

abbrev start : Consumer.Consumer (Docs × Docs)
start = record { store = ([], []); committed = [] }

abbrev handle : Text → Text → Act (Docs × Docs)
handle = router codec cluster cluster users_topic logs_topic

users_are_replayed_example :
    users_of codec cluster cluster users_topic logs_topic
      (Consumer.run handle inputs start).store
      (codes "7")
    ≡ replay
        (changes (user_message codec cluster cluster users_topic logs_topic) inputs)
        (users_of codec cluster cluster users_topic logs_topic start.store)
        (codes "7")
unfolding Replay.settled Consumer.on_message Handlers.new_router Handlers.route
    Handlers.handle_user_event Handlers.handle_user_upsert Handlers.handle_audit_event
    Handlers.handle_audit_upsert Indexer.index_user Indexer.index_body Indexer.index_audit_log
    Documents.user_document_from_debezium_after Json.date_from_debezium_days Json.at_key
    Json.string_from_map Json.string_ptr_from_map Documents.audit_log_document_from_debezium_after
users_are_replayed_example =
    users_are_replayed codec cluster cluster users_topic logs_topic (codes "7") inputs start refl

redelivery_keeps_users_example :
    users_of codec cluster cluster users_topic logs_topic
      (Consumer.run handle inputs (Consumer.run handle inputs start)).store
      (codes "7")
    ≡ users_of codec cluster cluster users_topic logs_topic
        (Consumer.run handle inputs start).store
        (codes "7")
unfolding Replay.settled Consumer.run Consumer.on_message Handlers.new_router Handlers.route
    Handlers.handle_user_event Handlers.handle_user_upsert Handlers.handle_audit_event
    Handlers.handle_audit_upsert Indexer.index_user Indexer.index_body Indexer.index_audit_log
    Documents.user_document_from_debezium_after Json.date_from_debezium_days Json.at_key
    Json.string_from_map Json.string_ptr_from_map Documents.audit_log_document_from_debezium_after
redelivery_keeps_users_example =
    redelivery_keeps_users codec cluster cluster users_topic logs_topic (codes "7") inputs start
      refl refl
