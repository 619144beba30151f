-- ===== src/Engine.antt =====
-- engine/: normalisation of states, and the changes that lead from one state to another.
pub mod Normalize
pub mod Diff
pub mod Profile
pub mod ChangePlan
