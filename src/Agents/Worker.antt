-- ===== src/Agents/Worker.antt =====
-- services/agent_runtime/worker.py: one round of AgentWorker over the task queue. The resolver and
-- the executor are parameters; other threads' calls of the repository stand between the worker's.
use esan_gbos.Prelude.{
  ℕ, ◌+◌, String, Bool, true, false, not, ◌&&◌, Option, none, some, List, [], ◌∷◌, if◌then◌else◌,
  ◌==◌, string_eq, nat_eq, ref_eq,
}
use esan_gbos.Prelude.Int.{ℤ, pos, leb_ℤ}
use esan_gbos.Tasks.Errors.{Error, lease_conflict, key_error, value_error, Result, ok, err}
use esan_gbos.Tasks.Models.{Datetime, FailureClassification, AgentTaskMetadata}
use esan_gbos.Tasks.Proposals.{Externals, AgentExecutionResult}
use esan_gbos.Tasks.Payload.{Patterns}
use esan_gbos.Tasks.Repository.{Repository}
use esan_gbos.Tasks.Lifecycle.{heartbeat, fail}
use esan_gbos.Tasks.Claim.{AgentTaskClaim, claim_for_execution}
use esan_gbos.Tasks.Completion.{complete_with_proposal}
use esan_gbos.Tasks.Run.{Call, perform, run}
use esan_gbos.Agents.Inputs.{
  Exception, queue, value, execution, budget, mismatch, fault, Try, threw, gave, throw_if,
  agent_kind_from_task_type, ContextResolutionRequest, ResolvedAgentContext, AgentInput,
  check_input, resolution_request, is_context_of, input_of, ◌>>=◌, ◌>>◌,
}

pub data WorkerRunStatus : Type 0 where
  idle succeeded failed lease_lost : WorkerRunStatus

pub record WorkerRunResult : Type 0 where
  pub status : WorkerRunStatus
  pub task_id : Option String
  pub attempt : Option ℕ

abbrev pub result_of : WorkerRunStatus → AgentTaskMetadata → WorkerRunResult
result_of status task = record {
  status = status;
  task_id = some task.task_id;
  attempt = some task.attempt;
}

-- AgentWorker's attributes. `mentions_policy` is the test on an exception's case-folded text, and
-- `value_text` the text of the ValueError that completion raises for a result.
pub record AgentWorker : Type 0 where
  pub site_id : String
  pub worker_id : String
  pub resolve : ContextResolutionRequest → Try ResolvedAgentContext
  pub execute : AgentInput → Datetime → Try AgentExecutionResult
  pub lease_duration : ℤ
  pub retry_delay : ℕ
  pub mentions_policy : String → Bool
  pub value_text : AgentExecutionResult → String

-- While the executor runs: a call of another thread, or a renewal by the heartbeat thread.
pub data Event : Type 0 where
  call : Call → Event
  renewal : Datetime → Event

-- What the clock reads and what other threads call, in the order of a round.
pub record Round : Type 0 where
  pub claimed_at : Datetime
  pub resolving : List Call
  pub executed_at : Datetime
  pub executing : List Event
  pub completing : List Call
  pub completed_at : Datetime
  pub failing : List Call
  pub failed_at : Datetime
  pub retry_from : Datetime

-- `clock() + retry_delay`
abbrev pub later : Datetime → ℕ → Datetime
later d delay = record d { instant = d.instant + delay }

-- run_once: from the claim to the executor's input.
unfoldable pub prepare : AgentWorker → AgentTaskClaim → Try AgentInput
prepare w claim = do
  context ← w.resolve (resolution_request claim)
  throw_if (not (is_context_of (resolution_request claim) context)) mismatch
  kind ← agent_kind_from_task_type claim.metadata.agent_type
  check_input (input_of claim kind context)
  gave (input_of claim kind context)

-- _classify_failure
abbrev pub classify_failure : AgentWorker → Exception → FailureClassification
classify_failure w budget = FailureClassification.budget_exhausted
classify_failure w mismatch = FailureClassification.invalid_output
classify_failure w (queue e) = FailureClassification.invalid_output
classify_failure w (execution text) =
    if w.mentions_policy text
    then FailureClassification.policy_denied
    else FailureClassification.invalid_output
classify_failure w (value text) =
    if w.mentions_policy text
    then FailureClassification.policy_denied
    else FailureClassification.internal
classify_failure w fault = FailureClassification.internal

-- `except (AgentExecutionError, ValueError)`: KeyError is neither.
abbrev pub is_caught : Exception → Bool
is_caught (queue key_error) = false
is_caught fault = false
is_caught _ = true

-- What complete_with_proposal raised, with the text of a ValueError.
abbrev pub raised_by : AgentWorker → AgentExecutionResult → Error → Exception
raised_by w result value_error = value (w.value_text result)
raised_by w result e = queue e

-- AgentWorker.__init__, as a test.
abbrev pub is_worker : AgentWorker → Bool
is_worker w = not (leb_ℤ w.lease_duration (pos 0)) && not (w.retry_delay == 0)

abbrev pub is_lost : Exception → Bool
is_lost (queue lease_conflict) = true
is_lost _ = false

module _ (x : Externals) (y : Patterns) (w : AgentWorker) where
  -- ThreadedHeartbeatRunner.run, the calls during the execution. The first renewal that raises ends
  -- the renewals, and its exception is kept.
  unfoldable pub others : List Event → Repository → Repository
  others [] s = s
  others (call c ∷ events) s = others events (perform x y c s).1
  others (renewal _ ∷ events) s = others events s

  unfoldable pub renewed_or :
      Result AgentTaskMetadata → Option Error × Repository → Repository → Option Error × Repository
  renewed_or (ok _) going stopped = going
  renewed_or (err e) going stopped = (some e, stopped)

  unfoldable pub meanwhile : AgentTaskMetadata → List Event → Repository → Option Error × Repository
  meanwhile task [] s = (none, s)
  meanwhile task (call c ∷ events) s = meanwhile task events (perform x y c s).1
  meanwhile task (renewal now ∷ events) s =
      let r = heartbeat task.site_id task.task_id w.worker_id task.attempt now w.lease_duration s in
      renewed_or r.0 (meanwhile task events r.1) (others events r.1)

  -- ThreadedHeartbeatRunner.run, its end, and the completion.
  unfoldable pub completed :
      AgentExecutionResult → Result AgentTaskMetadata × Repository → Try (Unit {0}) × Repository
  completed result (ok _, s) = (gave tt, s)
  completed result (err e, s) = (threw (raised_by w result e), s)

  unfoldable pub finish :
      AgentTaskClaim
      → Round
      → AgentExecutionResult
      → Option Error
      → Repository
      → Try (Unit {0}) × Repository
  finish claim round result (some e) s = (threw (queue e), s)
  finish claim round result none s = completed result (
      complete_with_proposal x claim.metadata.site_id claim.metadata.task_id w.worker_id
        claim.metadata.attempt round.completed_at result (run x y round.completing s).1)

  unfoldable pub executed :
      AgentTaskClaim
      → Round
      → Try AgentExecutionResult
      → Option Error × Repository
      → Try (Unit {0}) × Repository
  executed claim round (threw e) (failure, s) = (threw e, s)
  executed claim round (gave result) (failure, s) = finish claim round result failure s

  unfoldable pub prepared :
      AgentTaskClaim → Round → Try AgentInput → Repository → Try (Unit {0}) × Repository
  prepared claim round (threw e) s = (threw e, s)
  prepared claim round (gave input) s =
      executed claim round (w.execute input round.executed_at)
        (meanwhile claim.metadata round.executing s)

  -- The body of the try.
  unfoldable pub attempt : AgentTaskClaim → Round → Repository → Try (Unit {0}) × Repository
  attempt claim round s = prepared claim round (prepare w claim) (run x y round.resolving s).1

  -- The handlers.
  unfoldable pub report :
      AgentTaskClaim → Result AgentTaskMetadata × Repository → Try WorkerRunResult × Repository
  report claim (ok _, s) = (gave (result_of failed claim.metadata), s)
  report claim (err lease_conflict, s) = (gave (result_of lease_lost claim.metadata), s)
  report claim (err e, s) = (threw (queue e), s)

  unfoldable pub fail_task :
      AgentTaskClaim → Round → Exception → Repository → Try WorkerRunResult × Repository
  fail_task claim round e s = report claim (
      fail claim.metadata.site_id claim.metadata.task_id w.worker_id claim.metadata.attempt
        round.failed_at (later round.retry_from w.retry_delay) (classify_failure w e)
        (run x y round.failing s).1)

  unfoldable pub handle :
      AgentTaskClaim → Round → Exception → Repository → Try WorkerRunResult × Repository
  handle claim round e s =
      if is_lost e
      then (gave (result_of lease_lost claim.metadata), s)
      else if is_caught e
      then fail_task claim round e s
      else (threw e, s)

  unfoldable pub recover :
      AgentTaskClaim → Round → Try (Unit {0}) × Repository → Try WorkerRunResult × Repository
  recover claim round (gave _, s) = (gave (result_of succeeded claim.metadata), s)
  recover claim round (threw e, s) = handle claim round e s

  unfoldable pub begun :
      Round → Result (Option AgentTaskClaim) × Repository → Try WorkerRunResult × Repository
  begun round (err e, s) = (threw (queue e), s)
  begun round (ok none, s) = (gave (record { status = idle; task_id = none; attempt = none }), s)
  begun round (ok (some claim), s) = recover claim round (attempt claim round s)

  -- AgentWorker.run_once
  unfoldable pub run_once : Round → Repository → Try WorkerRunResult × Repository
  run_once round s =
      begun round (claim_for_execution y w.site_id w.worker_id round.claimed_at w.lease_duration s)

  -- AgentWorker.run, over the rounds until the stop event is set; an exception ends it.
  unfoldable pub go_on :
      Try WorkerRunResult → Repository → Try (Unit {0}) × Repository → Try (Unit {0}) × Repository
  go_on (threw e) s rest = (threw e, s)
  go_on (gave _) s rest = rest

  unfoldable pub serve : List Round → Repository → Try (Unit {0}) × Repository
  serve [] s = (gave tt, s)
  serve (round ∷ rounds) s = let r = run_once round s in go_on r.0 r.1 (serve rounds r.1)
