-- ===== src/Kafka.antt =====
-- internal/adapters/outbound/kafka: what the publishers make of a domain event.
pub mod CloudEvents
pub mod Encode
pub mod Fanout
