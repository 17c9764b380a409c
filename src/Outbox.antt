-- ===== src/Outbox.antt =====
-- internal/worker: the worker that publishes the events of the outbox table
pub mod Retry
pub mod Worker
pub mod Publisher
pub mod Final
pub mod Flight
pub mod Listing
pub mod Claims
pub mod Attempts
pub mod Death
