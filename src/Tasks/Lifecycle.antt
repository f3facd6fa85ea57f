-- ===== src/Tasks/Lifecycle.antt =====
-- services/agent_runtime/repository.py: enqueue, start, heartbeat, succeed and fail.
use esan_gbos.Prelude.{
  ℕ, ◌+◌, String, Bool, true, false, not, Option, none, some, List, [], ◌∷◌, if◌then◌else◌, ◌==◌,
  string_eq, pair_eq, leb, is_unique, suc, zero,
}
use esan_gbos.Prelude.Int.{ℤ, pos, negsuc}
use esan_gbos.Prelude.Dict.{lookup, insert}
use esan_gbos.Tasks.Errors.{validation_error, idempotency_conflict, lease_conflict, Result, ok, err}
use esan_gbos.Tasks.Models.{
  Datetime, TaskStatus, FailureClassification, EventType, ActorType, ReasonCode,
  AgentTaskSubmission, AgentTaskMetadata,
}
use esan_gbos.Tasks.Drafts.{require_aware}
use esan_gbos.Tasks.Repository.{
  Repository, Action, ◌>>=◌, ◌>>◌, pure, lift, refuse, modify, gets, is_status, TaskKey, store_task,
  append_event, event_of, require_live_lease, move_to_dead_letter,
}

-- `lease_duration <= timedelta(0)` raises; the duration is a number of microseconds.
abbrev pub require_positive : ℤ → Result ℕ
require_positive (pos zero) = err validation_error
require_positive (pos (suc n)) = ok (suc n)
require_positive (negsuc _) = err validation_error

-- The task that enqueue stores.
abbrev pub task_of : AgentTaskSubmission → ℕ → AgentTaskMetadata
task_of submission now = record {
  task_id = submission.task_id;
  site_id = submission.site_id;
  processing_purpose = submission.processing_purpose;
  idempotency_key = submission.idempotency_key;
  payload_digest = submission.payload_digest;
  agent_type = submission.agent_type;
  subject_type = submission.subject_type;
  subject_ref = submission.subject_ref;
  status = TaskStatus.queued;
  due_at = submission.due_at;
  priority = submission.priority;
  attempt = 0;
  max_attempts = submission.max_attempts;
  causation_id = submission.causation_id;
  correlation_id = submission.correlation_id;
  parent_task_id = submission.parent_task_id;
  output_artifact_refs = [];
  failure_classification = none;
  lease_owner = none;
  lease_expires_at = none;
  created_at = now;
  updated_at = now;
}

abbrev pub has {ℓ} : {A : Type ℓ} → Option A → Bool
has none = false
has (some _) = true

-- The parent that a submission names is not a task of its site.
abbrev pub lacks_parent : AgentTaskSubmission → Repository → Bool
lacks_parent submission s = elim submission.parent_task_id [
  | none ↦ false
  | some parent ↦ not (has (lookup (submission.site_id, parent) s.tasks))
]

-- The four writes at the end of enqueue.
unfoldable pub admit : AgentTaskSubmission → ℕ → Repository → Repository
admit submission now s =
    let task = task_of submission now in
    let task_key : TaskKey = (submission.site_id, submission.task_id) in
    record s {
      tasks = insert task_key task s.tasks;
      payloads = insert task_key submission.payload s.payloads;
      idempotency = insert (submission.site_id, submission.idempotency_key) task s.idempotency;
      timeline =
          insert task_key (event_of task 0 EventType.created now ActorType.system none ∷ [])
            s.timeline;
    }

-- The body of enqueue where the idempotency key is new.
unfoldable pub enqueue_new : AgentTaskSubmission → ℕ → Action AgentTaskMetadata
enqueue_new submission now = do
  refuse (← gets (lacks_parent submission)) validation_error
  refuse (← gets (λ s. has (lookup (submission.site_id, submission.task_id) s.tasks)))
      validation_error
  modify (admit submission now)
  pure (task_of submission now)

-- enqueue after its look at the idempotency table.
abbrev pub settle_submission :
    Option AgentTaskMetadata → AgentTaskSubmission → ℕ → Action AgentTaskMetadata
settle_submission none submission now = enqueue_new submission now
settle_submission (some task) submission now = do
  refuse (not (task.payload_digest == submission.payload_digest)) idempotency_conflict
  pure task

unfoldable pub enqueue : AgentTaskSubmission → Datetime → Action AgentTaskMetadata
enqueue submission at_time = do
  now ← lift (require_aware at_time)
  existing ← gets (λ s. lookup (submission.site_id, submission.idempotency_key) s.idempotency)
  settle_submission existing submission now

abbrev pub started : AgentTaskMetadata → ℕ → AgentTaskMetadata
started current now = record current { status = TaskStatus.running; updated_at = now }

unfoldable pub start : String → String → String → ℕ → Datetime → Action AgentTaskMetadata
start site_id task_id worker_id expected_attempt at_time = do
  now ← lift (require_aware at_time)
  current ← require_live_lease site_id task_id worker_id expected_attempt now
  refuse (not (is_status current.status TaskStatus.leased)) lease_conflict
  let running = started current now
  modify (store_task running)
  append_event running EventType.running now ActorType.worker (some worker_id)
  pure running

abbrev pub renewed : AgentTaskMetadata → ℕ → ℕ → AgentTaskMetadata
renewed current now lease = record current {
  lease_expires_at = some (now + lease);
  updated_at = now;
}

unfoldable pub heartbeat : String → String → String → ℕ → Datetime → ℤ → Action AgentTaskMetadata
heartbeat site_id task_id worker_id expected_attempt at_time lease_duration = do
  now ← lift (require_aware at_time)
  lease ← lift (require_positive lease_duration)
  current ← require_live_lease site_id task_id worker_id expected_attempt now
  let updated = renewed current now lease
  modify (store_task updated)
  pure updated

abbrev pub finished : AgentTaskMetadata → List String → ℕ → AgentTaskMetadata
finished current output_artifact_refs now = record current {
  status = TaskStatus.succeeded;
  output_artifact_refs = output_artifact_refs;
  lease_owner = none;
  lease_expires_at = none;
  updated_at = now;
}

unfoldable pub succeed :
    String → String → String → ℕ → Datetime → List String → Action AgentTaskMetadata
succeed site_id task_id worker_id expected_attempt at_time output_artifact_refs = do
  now ← lift (require_aware at_time)
  refuse (not (is_unique output_artifact_refs)) validation_error
  current ← require_live_lease site_id task_id worker_id expected_attempt now
  let completed = finished current output_artifact_refs now
  modify (store_task completed)
  append_event completed EventType.succeeded now ActorType.worker (some worker_id)
  pure completed

abbrev pub retried : AgentTaskMetadata → ℕ → ℕ → FailureClassification → AgentTaskMetadata
retried current now retry_at classification = record current {
  status = TaskStatus.recheck;
  due_at = retry_at;
  failure_classification = some classification;
  lease_owner = none;
  lease_expires_at = none;
  updated_at = now;
}

-- The end of fail where attempts are left.
unfoldable pub schedule_retry :
    AgentTaskMetadata → String → ℕ → ℕ → FailureClassification → Action AgentTaskMetadata
schedule_retry current worker_id now retry_at classification = do
  let retry = retried current now retry_at classification
  modify (store_task retry)
  append_event retry EventType.recheck_scheduled now ActorType.worker (some worker_id)
  pure retry

unfoldable pub fail :
    String
    → String
    → String
    → ℕ
    → Datetime
    → Datetime
    → FailureClassification
    → Action AgentTaskMetadata
fail site_id task_id worker_id expected_attempt at_time retry_time classification = do
  now ← lift (require_aware at_time)
  retry_at ← lift (require_aware retry_time)
  refuse (leb retry_at now) validation_error
  current ← require_live_lease site_id task_id worker_id expected_attempt now
  if leb current.max_attempts current.attempt
      then move_to_dead_letter current now classification ReasonCode.max_attempts_exhausted
          (some worker_id)
      else schedule_retry current worker_id now retry_at classification
