-- ===== src/Delivery.antt =====
-- Events between the services: the transactional outbox, its relay to Kafka, and the consumers.
pub mod Outbox
pub mod Relay
pub mod Rows
pub mod Sending
pub mod Publishing
pub mod Draining
pub mod Idempotency
pub mod Firsts
pub mod Once
pub mod Skipping
