-- ===== src/Kingdee.antt =====
-- The read-only Kingdee adapter: services/kingdee_adapter.
pub mod Models
pub mod Contracts
pub mod Policy
pub mod Validation
pub mod Adapter
pub mod Tables
pub mod Frozen
pub mod Plans
pub mod Requests
pub mod Answers
pub mod Rows
pub mod Live
pub mod Gates
