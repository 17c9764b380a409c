-- ===== src/Cdc.antt =====
-- internal/infrastructure/cdc and elasticsearch: the events that Debezium writes for the changed rows,
-- and the documents that the consumer keeps for them in the search index
pub mod Json
pub mod Documents
pub mod Mapping
pub mod Indexer
pub mod Handlers
pub mod Consumer
pub mod Replay
