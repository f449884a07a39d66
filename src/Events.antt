-- ===== src/Events.antt =====
-- app/events: the events, the outbox that they are written to, its relay to Kafka and its cleanup.
pub mod Schemas
pub mod Outbox
pub mod Relay
