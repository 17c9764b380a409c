-- ===== src/Outbox/Publisher.antt =====
-- internal/infrastructure/kafka/publisher.go: the publisher, over the writer of kafka-go
pub mod Sendable
use portal_backend.Prelude.{ℕ, Option, none, some, ◌++◌, if◌then◌else◌}
use portal_backend.Text.{Text, codes, is_empty}
use portal_backend.Model.{OutboxEvent}

-- a message of Kafka; its time is that of the effect
pub record Message : Type 0 where
  pub topic : Text
  pub key : Text
  pub value : Text

abbrev pub message_of : OutboxEvent → Message
message_of e = record { topic = e.topic; key = e.message_key; value = e.payload }

abbrev pub wrapped : Option Text → Option Text
wrapped none = none
wrapped (some error) = some (codes "publish kafka message: " ++ error)

-- Publish, of the topic, the key and the payload of an event; `write_messages` is the writer at the
-- number of the effect, with the text of its error
unfoldable pub publish : (ℕ → Message → Option Text) → ℕ → OutboxEvent → Option Text
publish write_messages step e =
    if is_empty e.topic
    then some (codes "kafka topic is required")
    else if is_empty e.message_key
    then some (codes "kafka message key is required")
    else wrapped (write_messages step (message_of e))
