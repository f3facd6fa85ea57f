-- ===== src/Tasks/Run.antt =====
-- The public methods of services/agent_runtime/repository.py that write, as calls, and a run of
-- calls one after the other: the lock of the repository makes every call atomic, so what threads
-- do together is some such sequence. A call that raises does not stop the calls after it.
use esan_gbos.Prelude.{ℕ, String, List, [], ◌∷◌}
use esan_gbos.Prelude.Int.{ℤ}
use esan_gbos.Tasks.Errors.{Result}
use esan_gbos.Tasks.Models.{Datetime, FailureClassification, AgentTaskSubmission}
use esan_gbos.Tasks.Proposals.{Externals, AgentExecutionResult}
use esan_gbos.Tasks.Payload.{Patterns}
use esan_gbos.Tasks.Repository.{Repository, Action, after, pure}
use esan_gbos.Tasks.Lifecycle.{enqueue, start, heartbeat, succeed, fail}
use esan_gbos.Tasks.Claim.{claim, claim_for_execution}
use esan_gbos.Tasks.Completion.{complete_with_proposal}

pub data Call : Type 0 where
  enqueues : AgentTaskSubmission → Datetime → Call
  claims : String → String → Datetime → ℤ → Call
  claims_for_execution : String → String → Datetime → ℤ → Call
  starts : String → String → String → ℕ → Datetime → Call
  heartbeats : String → String → String → ℕ → Datetime → ℤ → Call
  succeeds : String → String → String → ℕ → Datetime → List String → Call
  fails : String → String → String → ℕ → Datetime → Datetime → FailureClassification → Call
  completes : String → String → String → ℕ → Datetime → AgentExecutionResult → Call

-- The answer of a call, without its value.
abbrev pub discard : {A : Type 0} → Result A × Repository → Result (Unit {0}) × Repository
discard r = after r (λ _. pure tt)

module _ (x : Externals) (y : Patterns) where
  abbrev pub perform : Call → Action (Unit {0})
  perform (enqueues submission at_time) s = discard (enqueue submission at_time s)
  perform (claims site worker at_time lease) s = discard (claim site worker at_time lease s)
  perform (claims_for_execution site worker at_time lease) s =
      discard (claim_for_execution y site worker at_time lease s)
  perform (starts site task worker attempt at_time) s =
      discard (start site task worker attempt at_time s)
  perform (heartbeats site task worker attempt at_time lease) s =
      discard (heartbeat site task worker attempt at_time lease s)
  perform (succeeds site task worker attempt at_time refs) s =
      discard (succeed site task worker attempt at_time refs s)
  perform (fails site task worker attempt at_time retry_at classification) s =
      discard (fail site task worker attempt at_time retry_at classification s)
  perform (completes site task worker attempt at_time result) s =
      discard (complete_with_proposal x site task worker attempt at_time result s)

  unfoldable pub run : List Call → Repository → List (Result (Unit {0})) × Repository
  run [] s = ([], s)
  run (call ∷ calls) s =
      let first = perform call s in let rest = run calls first.1 in (first.0 ∷ rest.0, rest.1)
