-- ===== src/Tasks.antt =====
-- The Agent Task queue: services/agent_runtime/models.py and repository.py.
pub mod Models
pub mod Errors
pub mod Proposals
pub mod Documents
pub mod Readings
pub mod Drafts
pub mod Repository
pub mod Payload
pub mod Lifecycle
pub mod Claim
pub mod Completion
pub mod Readers
pub mod Steps
pub mod Consistency
pub mod Records
pub mod Invariance
pub mod Effects
pub mod Methods
pub mod Sorting
pub mod Reaping
pub mod Selection
pub mod Claims
pub mod Completions
pub mod Undoing
pub mod Atomicity
pub mod Run
pub mod Runs
pub mod Persistence
pub mod Fencing
pub mod Submission
pub mod Leasing
pub mod Failing
pub mod Sources
pub mod Safety
pub mod RoundTrip
pub mod Closure
pub mod Completed
pub mod Executing
pub mod Progress
