-- ===== src/Guard.antt =====
-- services/action_guard: the policy decision point.
pub mod Policy
pub mod Decisions
