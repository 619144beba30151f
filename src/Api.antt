-- ===== src/Api.antt =====
-- api/: what an apply reports to its caller.
pub mod Response
pub mod Apply
pub mod Coordinator
pub mod Recovery
pub mod Request
pub mod Idempotency
pub mod Service
mod Tests
