-- ===== src/Mcp.antt =====
-- internal/adapters/inbound/mcp: the tools that a model calls.
pub mod Tools
pub mod Reports
pub mod Occupancy
