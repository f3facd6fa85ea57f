-- ===== src/Tests/Workers.antt =====
-- Rounds of AgentWorker of services/agent_runtime/worker.py.
use esan_gbos.Prelude.{false, [], ◌∷◌, ◌≡◌, refl, pair_eq, string_eq}
use esan_gbos.Prelude.Int.{pos}
use esan_gbos.Prelude.Json.{obj, end}
use esan_gbos.Prelude.Dict.{lookup, insert, values}
use esan_gbos.Tasks.Errors.{err, validation_error}
use esan_gbos.Tasks.Models.{AgentTaskSubmission}
use esan_gbos.Tasks.Payload.{from_mapping, read_mapping, has_pii}
use esan_gbos.Tasks.Repository.{Repository, empty}
use esan_gbos.Tasks.Lifecycle.{enqueue, enqueue_new, admit, task_of}
use esan_gbos.Tasks.Claim.{
  AgentTaskClaim, reap_expired, bury_all, sort_by_task_id, claim_candidates, select, least, claimed,
  claim_for_execution,
}
use esan_gbos.Tasks.Run.{enqueues, claims, run}
use esan_gbos.Tasks.Models.{TaskStatus}
use esan_gbos.Tasks.Invariance.{empty-IsConsistent}
use esan_gbos.Tasks.Runs.{run-IsConsistent}
use esan_gbos.Tasks.Fencing.{aware}
use esan_gbos.Tasks.Executing.{claim_for_execution-blocked}
use esan_gbos.Agents.Worker.{AgentWorker, Round, call, renewal}
use esan_gbos.Agents.Inputs.{gave, ResolvedAgentContext}
use esan_gbos.Tests.Queue.{ext, pats, order, order-valid, waiting}
use esan_gbos.Tests.Completions.{result}
use esan_gbos.Tests.Documents.{mapping, payload}

-- A queue with a task that an agent can run.
abbrev sale : AgentTaskSubmission
sale = record order { agent_type = "sales"; payload = obj mapping; max_attempts = 3 }

abbrev queued : Repository
queued = (run ext pats (enqueues sale (aware 10) ∷ []) empty).1

abbrev context : ResolvedAgentContext
context = record {
  site_id = "S";
  subject_type = "Deal";
  subject_ref = "D1";
  evidence_refs = "E" ∷ [];
  fact_version_refs = ("F", 2) ∷ [];
  raw_context = "text";
}

abbrev agent : AgentWorker
agent = record {
  site_id = "S";
  worker_id = "w";
  resolve = λ request. gave context;
  execute = λ input now. gave result;
  lease_duration = pos 30;
  retry_delay = 300;
  mentions_policy = λ text. false;
  value_text = λ r. "Invalid isoformat string";
}

abbrev round : Round
round = record {
  claimed_at = aware 20;
  resolving = claims "S" "v" (aware 21) (pos 5) ∷ [];
  executed_at = aware 22;
  executing = renewal (aware 30) ∷ call (claims "S" "v" (aware 31) (pos 5)) ∷ [];
  completing = [];
  completed_at = aware 40;
  failing = [];
  failed_at = aware 41;
  retry_from = aware 41;
}

abbrev running_claim : AgentTaskClaim
running_claim = record {
  metadata = claimed TaskStatus.running (task_of sale 10) "w" 20 30;
  payload = payload;
}

-- The submission of `waiting` has an empty payload.
claim_for_execution-blocked_example :
    claim_for_execution pats "S" "w" (aware 20) (pos 30) waiting
    ≡ (err validation_error, (reap_expired "S" 20 waiting).1)
unfolding run enqueue enqueue_new admit reap_expired bury_all sort_by_task_id claim_candidates
    select least lookup insert values empty from_mapping read_mapping has_pii
claim_for_execution-blocked_example =
    claim_for_execution-blocked pats waiting "S" "w" 20 30 (pos 30) (task_of order 10) (obj end)
      (run-IsConsistent ext pats (enqueues order (aware 10) ∷ []) empty empty-IsConsistent
        (order-valid, tt))
      refl refl refl refl refl
