-- ===== src/Agents.antt =====
-- The agents over the task queue: services/agent_runtime/worker.py, agents.py, proposals.py (the
-- materializer) and materialization.py.
pub mod Inputs
pub mod Worker
pub mod Bindings
pub mod Contained
pub mod Rounds
pub mod Endings
pub mod Outcomes
pub mod Intents
pub mod Materializer
pub mod Shapes
pub mod Reversible
pub mod Outbox
pub mod Delivery
pub mod Deliveries
pub mod Orchestrator
pub mod Provider
pub mod Executions
