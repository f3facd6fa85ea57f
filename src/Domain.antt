-- ===== src/Domain.antt =====
-- apps/esan_gbos/esan_gbos/domain: the rules of the business records.
pub mod Workflow
pub mod Transitions
pub mod Commands
pub mod Replays
pub mod Permissions
pub mod Grants
pub mod Roles
pub mod Access
pub mod Confinement
pub mod Drafts
