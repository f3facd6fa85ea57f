-- ===== src/Tests/Completions.antt =====
-- complete_with_proposal of services/agent_runtime/repository.py on a queue with one task.
use esan_gbos.Prelude.{ℕ, String, true, [], ◌∷◌, ◌≡◌, refl, pair_eq, string_eq, nat_eq}
use esan_gbos.Prelude.Int.{pos}
use esan_gbos.Prelude.Dict.{lookup, insert, values}
use esan_gbos.Prelude.Json.{Json, obj, end, field, str, arr, num, nil, cons}
use esan_gbos.Tasks.Errors.{err, validation_error}
use esan_gbos.Tasks.Proposals.{AgentExecutionResult, ModelInvocationRecord}
use esan_gbos.Tasks.Repository.{Repository, empty, store_task, append_event, require_live_lease}
use esan_gbos.Tasks.Lifecycle.{enqueue, enqueue_new, admit, start}
use esan_gbos.Tasks.Claim.{
  claim, reap_expired, bury_all, sort_by_task_id, claim_candidates, select, least, lease_task,
}
use esan_gbos.Tasks.Completion.{
  complete_with_proposal, complete_new, write_completion, append_invocations, append_invocation,
  add_invocation,
}
use esan_gbos.Tasks.Readings.{read_proposal}
use esan_gbos.Tasks.Drafts.{
  from_execution, check_proposal, is_unsafe, has_forbidden_text, forbidden_text,
}
use esan_gbos.Tasks.Run.{starts, run}
use esan_gbos.Tasks.Runs.{run-IsConsistent}
use esan_gbos.Tasks.Fencing.{aware}
use esan_gbos.Tasks.Completed.{Completed, complete_with_proposal-Completed}
use esan_gbos.Tasks.Readers.{get_proposal, get_invocations, sort_invocations}
use esan_gbos.Tasks.Lifecycle.{has}
use esan_gbos.Tasks.Completion.{append_proposal, add_proposal}
use esan_gbos.Tasks.Drafts.{from_proposal}
use esan_gbos.Tasks.Atomicity.{complete_with_proposal-Atomic}
use esan_gbos.Tasks.Undoing.{Atomic}
use esan_gbos.Tests.Queue.{ext, pats, held, held-IsConsistent}

-- The task runs, and its worker completes it with a proposal and two invocations. The second one
-- has called a tool, so the writes of the first are taken back.
abbrev running : Repository
running = (run ext pats (starts "S" "T" "w" 1 (aware 25) ∷ []) held).1

abbrev pub document : Json
document = obj (
    field "site_id" (str "S") (
      field "target_ref" (str "D1") (
        field "status" (str "proposed") (
          field "action_type" (str "internal.work_item.propose") (
            field "action_proposal_id" (str "P") (
              field "payload" (obj end) (
                field "evidence_refs" (arr (cons (str "E") nil)) (
                  field "fact_version_refs" (arr nil) (
                    field "payload_digest" (str "d") (
                      field "created_at" (str "2026-01-01T00:00:00Z")
                        (field "target_revision" (num (pos 1)) end)))))))))))

abbrev invocation : String → ℕ → ModelInvocationRecord
invocation name tool_calls = record {
  invocation_id = name;
  site_id = "S";
  request_id = "T";
  evidence_refs = "E" ∷ [];
  started_at = 26;
  tool_call_count = tool_calls;
  external_send_count = 0;
  idempotency_key = name;
  details = "";
}

abbrev pub result : AgentExecutionResult
result = record {
  action_proposal = document;
  invocations = invocation "I" 0 ∷ invocation "J" 1 ∷ [];
}

complete_with_proposal-Atomic_example :
    Atomic running (complete_with_proposal ext "S" "T" "w" 1 (aware 30) result running)
complete_with_proposal-Atomic_example =
    complete_with_proposal-Atomic ext running "S" "T" "w" 1 (aware 30) result (
      run-IsConsistent ext pats (starts "S" "T" "w" 1 (aware 25) ∷ []) held held-IsConsistent
        (tt, tt))

-- The call above raises in the middle of its writes.
refused_tool :
    (complete_with_proposal ext "S" "T" "w" 1 (aware 30) result running).0 ≡ err validation_error
unfolding run enqueue enqueue_new admit claim reap_expired bury_all sort_by_task_id claim_candidates
    select least lease_task store_task append_event lookup insert values empty start
    require_live_lease complete_with_proposal from_execution check_proposal read_proposal is_unsafe
    has_forbidden_text forbidden_text complete_new write_completion append_invocations
    append_invocation add_invocation
refused_tool = refl

-- With the first invocation alone the completion goes through.
abbrev good_result : AgentExecutionResult
good_result = record { action_proposal = document; invocations = invocation "I" 0 ∷ [] }

complete_with_proposal-Completed_example :
    Completed "S" "T" 1 (complete_with_proposal ext "S" "T" "w" 1 (aware 30) good_result running)
complete_with_proposal-Completed_example =
    complete_with_proposal-Completed ext running "S" "T" "w" 1 (aware 30) good_result (
      run-IsConsistent ext pats (starts "S" "T" "w" 1 (aware 25) ∷ []) held held-IsConsistent
        (tt, tt))

-- It is found by its keys afterwards, and has one invocation.
completed_run :
    let r = complete_with_proposal ext "S" "T" "w" 1 (aware 30) good_result running in
    (has (get_proposal "S" "T" 1 r.1) ≡ true) × (get_invocations "S" r.1 ≡ invocation "I" 0 ∷ [])
unfolding run enqueue enqueue_new admit claim reap_expired bury_all sort_by_task_id claim_candidates
    select least lease_task store_task append_event lookup insert values empty start
    require_live_lease complete_with_proposal from_execution check_proposal read_proposal is_unsafe
    has_forbidden_text forbidden_text complete_new write_completion append_invocations
    append_invocation add_invocation append_proposal add_proposal from_proposal get_proposal
    get_invocations sort_invocations
completed_run = (refl, refl)
