-- ===== src/Api/Coordinator.antt =====
-- api/apply_coordinator.rs: how one device is changed, as a sequence of journal writes and calls of the
-- adapter.
pub mod Env
pub mod Admit
pub mod Endpoint
pub mod Finish
pub mod Single
pub mod Request
pub mod Rules
pub mod Steps
pub mod Carry
pub mod Confirm
pub mod Changed
pub mod Promise
pub mod Success
pub mod Planned
pub mod Honest
pub mod Logged
mod Tests
