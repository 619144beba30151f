-- ===== src/Planner.antt =====
-- planner/: from an intent to the desired state of every device.
pub mod DevicePlan
pub mod DomainPlan
