-- ===== src/Facility.antt =====
-- internal/adapters/outbound/facilitycache: the local view of the locations of facility-layout.
pub mod Cache
pub mod Replay
pub mod Client
