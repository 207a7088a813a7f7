-- ===== src/Resilience.antt =====
-- internal/resilience and internal/adapters/outbound/bootretry: when a breaker opens, how long a call
-- may take, and the retry of the dials at the start.
pub mod Breaker
pub mod BootRetry
