-- ===== src/Analytics.antt =====
-- The "Inventory Flow & Accuracy" read model: internal/adapters/outbound/analyticsstore and
-- internal/adapters/inbound/kafka/analytics_consumer.go.
pub mod Store
pub mod Projection
pub mod Consumer
