-- ===== src/Lib.antt =====
-- Esan GBOS: the rules behind its agent runtime and its business records.
--
-- The program and its parts. An Agent Task queue hands tasks to workers under leases and stores
-- what they propose; an action guard decides which actions an agent may take; a Frappe application
-- holds the business records, with workflows, idempotent commands and role-based permissions.
--
-- Tasks (services/agent_runtime). Models, Errors, Proposals, Documents, Readings, Drafts and
-- Payload translate models.py and proposals.py: the records, LocalPilotTaskPayload with
-- from_mapping and to_mapping, ActionProposalRecord with from_execution. Repository, Lifecycle,
-- Claim, Completion and Readers translate InMemoryAgentTaskRepository of repository.py. Its ten
-- dicts are the record Repository; a method is an action that takes the state and gives a result or
-- an exception with the new state, and every exception keeps the writes that came before it, except
-- where the code restores them. Datetimes are microseconds with a flag for a timezone, and a lease
-- is the number of them. Run has the methods as calls, and runs of calls: the repository's lock
-- makes a call atomic, so what threads do together is such a run. Steps has the writes of the
-- methods as a relation, with histories of writes; Consistency, Records and Invariance have the
-- invariant that every write keeps; Effects, Methods, Sorting, Reaping, Selection, Claims,
-- Completions, Undoing and Atomicity show each method to be such a history. Runs, Persistence,
-- Fencing, Submission, Leasing, Progress, Failing, Completed, Executing, Sources, Safety, RoundTrip
-- and Closure have the results.
--
-- Guard (services/action_guard). Policy translates policy.py and models.py, Decisions has the
-- results.
--
-- Agents (services/agent_runtime). Inputs and Worker translate AgentWorker of worker.py over the
-- queue of Tasks, with the calls of other threads between its own; Orchestrator and Provider
-- translate agents.py, which asks the guard of Guard; Intents and Materializer translate
-- TrustedMaterializer of proposals.py; Outbox and Delivery translate MaterializationWorker of
-- materialization.py over any outbox repository. Bindings, Contained, Rounds, Endings, Outcomes,
-- Executions, Shapes, Reversible and Deliveries have the results.
--
-- Kingdee (services/kingdee_adapter). Models, Contracts, Policy, Validation and Adapter translate
-- models.py, policy.py and adapter.py, with the records of audit.py, and Live the LiveTransport of
-- transport.py. Tables, Frozen, Plans, Requests, Answers, Rows and Gates have the results.
--
-- Domain (apps/esan_gbos/esan_gbos). Workflow translates domain/state_machine.py and
-- domain/revision.py, Commands domain/idempotency.py, Permissions domain/permissions.py, and Access
-- the hooks of permissions.py. Transitions, Replays, Grants, Roles, Confinement and
-- Drafts have the results.
--
-- Parameters. Regular expressions, case folding, SHA-256 over canonical JSON and the ISO 8601
-- reader are fields of Externals and Patterns; Frappe's roles, database lookups and request-local
-- scope are fields of Context; the model provider, the resolvers, the Frappe client, the outbox
-- store and the Kingdee transport and its live backend are fields or arguments of their clients.
-- The theorems hold for all of them; where one relies on what such a function does, it says so as a
-- hypothesis.
--
-- Bounds. No definition needs fuel: loops run over lists that are given. Python's integers are
-- unbounded, and so are the numbers here. Instants are unbounded too, so the OverflowError of a
-- datetime past the year 9999 is not modelled. A float is kept as its text and equals only that
-- text, where Python has 1.0 == 1, and the audit fields of a model invocation are one text.
--
-- Not modelled: the digest of a submission, which is given with it; the SQL, HTTP and Frappe
-- adapters, the SQL fragments of the list permissions, and the services of other directories.
pub mod Prelude
pub mod Tasks
pub mod Domain
pub mod Guard
pub mod Kingdee
pub mod Agents
pub mod Tests
