-- ===== src/State.antt =====
-- state/: what is known of a device.
pub mod Shadow
pub mod Drift
