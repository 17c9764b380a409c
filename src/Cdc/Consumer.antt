-- ===== src/Cdc/Consumer.antt =====
-- internal/infrastructure/cdc/consumer.go: the loop over the messages of a Kafka reader.
use portal_backend.Prelude.{ℕ, Bool, List, [], ◌∷◌, Option, none, some, if◌then◌else◌}
use portal_backend.Text.{Text}
use portal_backend.Cdc.Indexer.{Act}

pub record Message : Type 0 where
  pub topic : Text
  pub partition : ℕ
  pub offset : ℕ
  pub value : Text

-- What the reader gives: a message, with whether its commit would succeed; an error; or the end of
-- the context.
pub data Fetch : Type 0 where
  fetched : Message → Bool → Fetch
  fetch_error stopped : Fetch

-- the state of the router's handlers, and the messages that were committed, the last one first
pub record Consumer (S : Type 0) : Type 0 where
  pub store : S
  pub committed : List Message

module _ {S : Type 0} (handle : Text → Text → Act S) where
  abbrev pub after_handle : Message → Bool → Consumer S → Option Text × S → Consumer S
  after_handle m commits c (some e, s) = record c { store = s }
  after_handle m commits c (none, s) = record {
    store = s;
    committed = if commits then m ∷ c.committed else c.committed;
  }

  -- one round of the loop with a message
  unfoldable pub on_message : Message → Bool → Consumer S → Consumer S
  on_message m commits c = after_handle m commits c (handle m.topic m.value c.store)

  -- Run, for what the reader gives
  unfoldable pub run : List Fetch → Consumer S → Consumer S
  run [] c = c
  run (stopped ∷ inputs) c = c
  run (fetch_error ∷ inputs) c = run inputs c
  run (fetched m commits ∷ inputs) c = run inputs (on_message m commits c)
