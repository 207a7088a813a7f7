-- ===== src/Http.antt =====
-- internal/adapters/inbound/http: the errors of a response.
pub mod Errors
pub mod Response
pub mod Handlers
pub mod Routes
pub mod Idempotency
pub mod Reports
pub mod Agreement
