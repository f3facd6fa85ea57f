-- ===== src/Tasks/Completion.antt =====
-- services/agent_runtime/repository.py: complete_with_proposal and its helpers.
use esan_gbos.Prelude.{
  ℕ, String, Bool, true, false, not, ◌&&◌, Option, none, some, List, [], ◌∷◌, list_beq, ◌==◌,
  string_eq, nat_eq, pair_eq, triple_eq, ref_eq, any,
}
use esan_gbos.Prelude.Dict.{lookup, insert, values}
use esan_gbos.Tasks.Errors.{
  validation_error, idempotency_conflict, lease_conflict, task_not_found, Result, ok, err,
}
use esan_gbos.Tasks.Models.{Datetime, TaskStatus, EventType, ActorType, AgentTaskMetadata}
use esan_gbos.Tasks.Proposals.{
  Externals, AgentExecutionResult, ModelInvocationRecord, ActionProposalRecord,
  MaterializationOutboxRecord, same_proposal,
}
use esan_gbos.Tasks.Drafts.{from_execution, from_proposal, require_aware}
use esan_gbos.Tasks.Lifecycle.{finished, has}
use esan_gbos.Tasks.Repository.{
  Repository, Action, AttemptKey, TaskKey, ◌>>=◌, ◌>>◌, pure, lift, found, refuse, modify, gets,
  is_status, store_task, append_event, require_live_lease,
}

-- `==` of the dataclasses, field by field.
abbrev pub same_invocation : ModelInvocationRecord → ModelInvocationRecord → Bool
same_invocation a b =
    a.invocation_id == b.invocation_id
    && (a.site_id == b.site_id
        && (a.request_id == b.request_id
            && (list_beq a.evidence_refs b.evidence_refs
                && (a.started_at == b.started_at
                    && (a.tool_call_count == b.tool_call_count
                        && (a.external_send_count == b.external_send_count
                            && (a.idempotency_key == b.idempotency_key
                                && a.details == b.details)))))))

abbrev pub invocation_key : ModelInvocationRecord → TaskKey
invocation_key record_ = (record_.site_id, record_.invocation_id)

abbrev pub invocation_idempotency_key : ModelInvocationRecord → TaskKey
invocation_idempotency_key record_ = (record_.site_id, record_.idempotency_key)

-- The binding that _append_invocation demands.
abbrev pub is_bound : AgentTaskMetadata → ActionProposalRecord → ModelInvocationRecord → Bool
is_bound task proposal invocation =
    invocation.site_id == task.site_id
    && (invocation.request_id == task.task_id
        && (list_beq invocation.evidence_refs proposal.evidence_refs
            && (invocation.external_send_count == 0 && invocation.tool_call_count == 0)))

-- The end of _append_invocation, where the idempotency key is new.
unfoldable pub add_invocation : ModelInvocationRecord → Action (Unit {0})
add_invocation invocation = do
  refuse (← gets (λ s. has (lookup (invocation_key invocation) s.invocations))) idempotency_conflict
  modify (λ s. record s {
    invocations = insert (invocation_key invocation) invocation s.invocations;
    invocation_idempotency =
        insert (invocation_idempotency_key invocation) invocation s.invocation_idempotency;
  })

abbrev pub settle_invocation :
    Option ModelInvocationRecord → ModelInvocationRecord → Action (Unit {0})
settle_invocation none invocation = add_invocation invocation
settle_invocation (some old) invocation =
    refuse (not (same_invocation old invocation)) idempotency_conflict

-- _append_invocation
unfoldable pub append_invocation :
    AgentTaskMetadata → ActionProposalRecord → ModelInvocationRecord → Action (Unit {0})
append_invocation task proposal invocation = do
  refuse (not (is_bound task proposal invocation)) validation_error
  existing ← gets (λ s. lookup (invocation_idempotency_key invocation) s.invocation_idempotency)
  settle_invocation existing invocation

unfoldable pub append_invocations :
    AgentTaskMetadata → ActionProposalRecord → List ModelInvocationRecord → Action (Unit {0})
append_invocations task proposal [] = pure tt
append_invocations task proposal (invocation ∷ rest) = do
  append_invocation task proposal invocation
  append_invocations task proposal rest

abbrev pub proposal_key : ActionProposalRecord → AttemptKey
proposal_key p = (p.site_id, p.task_id, p.task_attempt)

-- `(proposal.site_id, proposal.idempotency_key)`, with the key as the pair that it prints.
abbrev pub proposal_idempotency_key : ActionProposalRecord → AttemptKey
proposal_idempotency_key p = (p.site_id, p.idempotency_key.0, p.idempotency_key.1)

-- The end of _append_proposal, where the idempotency key is new.
unfoldable pub add_proposal : ActionProposalRecord → Action (Unit {0})
add_proposal proposal = do
  refuse
      (← gets (λ s.
        any (λ item. item.site_id == proposal.site_id && item.proposal_id == proposal.proposal_id)
          (values s.proposals)))
      idempotency_conflict
  modify (λ s. record s {
    proposals = insert (proposal_key proposal) proposal s.proposals;
    proposal_idempotency =
        insert (proposal_idempotency_key proposal) proposal s.proposal_idempotency;
  })

abbrev pub settle_proposal : Option ActionProposalRecord → ActionProposalRecord → Action (Unit {0})
settle_proposal none proposal = add_proposal proposal
settle_proposal (some old) proposal = refuse (not (same_proposal old proposal)) idempotency_conflict

-- _append_proposal
unfoldable pub append_proposal : ActionProposalRecord → Action (Unit {0})
append_proposal proposal = do
  existing ← gets (λ s. lookup (proposal_idempotency_key proposal) s.proposal_idempotency)
  settle_proposal existing proposal

-- `existing != record`
abbrev pub differs : Option ModelInvocationRecord → ModelInvocationRecord → Bool
differs none invocation = true
differs (some old) invocation = not (same_invocation old invocation)

-- _validate_replayed_invocations
unfoldable pub validate_replayed : List ModelInvocationRecord → Action (Unit {0})
validate_replayed [] = pure tt
validate_replayed (invocation ∷ rest) = do
  existing ← gets (λ s. lookup (invocation_key invocation) s.invocations)
  refuse (differs existing invocation) idempotency_conflict
  validate_replayed rest

-- The fence of a replayed completion holds.
abbrev pub is_fenced :
    AgentTaskMetadata → ℕ → ActionProposalRecord → Option MaterializationOutboxRecord → Bool
is_fenced task expected_attempt proposal none = false
is_fenced task expected_attempt proposal (some m) =
    is_status task.status TaskStatus.succeeded
    && (task.attempt == expected_attempt
        && (list_beq task.output_artifact_refs (proposal.proposal_id ∷ [])
            && (m.origin == "AI" && m.review_status == "AI Draft")))

-- complete_with_proposal where the attempt already has a proposal.
unfoldable pub replay :
    AgentTaskMetadata
    → AgentExecutionResult
    → ActionProposalRecord
    → AttemptKey
    → ActionProposalRecord
    → Action AgentTaskMetadata
replay task result proposal attempt_key existing = do
  refuse (not (existing.bundle_digest == proposal.bundle_digest)) idempotency_conflict
  validate_replayed result.invocations
  materialization ← gets (λ s. lookup attempt_key s.materializations)
  refuse (not (is_fenced task attempt_key.2 proposal materialization)) idempotency_conflict
  pure task

-- The body of `try`.
unfoldable pub write_completion :
    AgentTaskMetadata
    → AgentExecutionResult
    → ActionProposalRecord
    → AttemptKey
    → String
    → ℕ
    → Action AgentTaskMetadata
write_completion current result proposal attempt_key worker_id now = do
  append_invocations current proposal result.invocations
  append_proposal proposal
  modify (λ s. record s {
    materializations = insert attempt_key (from_proposal proposal now) s.materializations;
  })
  let completed = finished current (proposal.proposal_id ∷ []) now
  modify (store_task completed)
  append_event completed EventType.succeeded now ActorType.worker (some worker_id)
  pure completed

-- `except BaseException`: the eight tables that `try` may have changed are put back.
abbrev pub restore : Repository → Repository → Repository
restore before s = record s {
  tasks = before.tasks;
  idempotency = before.idempotency;
  timeline = before.timeline;
  proposals = before.proposals;
  proposal_idempotency = before.proposal_idempotency;
  materializations = before.materializations;
  invocations = before.invocations;
  invocation_idempotency = before.invocation_idempotency;
}

abbrev pub restored : {A : Type 0} → Repository → Result A × Repository → Result A × Repository
restored before (ok a, s) = (ok a, s)
restored before (err e, s) = (err e, restore before s)

abbrev pub or_restore : {A : Type 0} → Action A → Action A
or_restore body s = restored s (body s)

-- complete_with_proposal where the attempt has no proposal yet.
unfoldable pub complete_new :
    AgentExecutionResult
    → ActionProposalRecord
    → String
    → String
    → String
    → ℕ
    → ℕ
    → Action AgentTaskMetadata
complete_new result proposal site_id task_id worker_id expected_attempt now = do
  current ← require_live_lease site_id task_id worker_id expected_attempt now
  refuse (not (is_status current.status TaskStatus.running)) lease_conflict
  or_restore
      (write_completion current result proposal (site_id, task_id, expected_attempt) worker_id now)

-- complete_with_proposal from the look at an earlier proposal on.
abbrev pub complete_or_replay :
    Option ActionProposalRecord
    → AgentTaskMetadata
    → AgentExecutionResult
    → ActionProposalRecord
    → String
    → String
    → String
    → ℕ
    → ℕ
    → Action AgentTaskMetadata
complete_or_replay none task result proposal site_id task_id worker_id expected_attempt now =
    complete_new result proposal site_id task_id worker_id expected_attempt now
complete_or_replay (some existing) task result proposal site_id task_id worker_id expected_attempt
      now =
    replay task result proposal (site_id, task_id, expected_attempt) existing

module _ (x : Externals) where
  unfoldable pub complete_with_proposal :
      String → String → String → ℕ → Datetime → AgentExecutionResult → Action AgentTaskMetadata
  complete_with_proposal site_id task_id worker_id expected_attempt at_time result = do
    now ← lift (require_aware at_time)
    task ← found (← gets (λ s. lookup (site_id, task_id) s.tasks)) task_not_found
    refuse (not (task.attempt == expected_attempt)) lease_conflict
    proposal ← lift (from_execution x task result)
    earlier ← gets (λ s. lookup (site_id, task_id, expected_attempt) s.proposals)
    complete_or_replay earlier task result proposal site_id task_id worker_id expected_attempt now
