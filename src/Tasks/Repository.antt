-- ===== src/Tasks/Repository.antt =====
-- services/agent_runtime/repository.py: the state of InMemoryAgentTaskRepository, its tables and
-- the helpers that every method uses. A method is a function from the state to a result and the
-- state after it: what was written before a raise stays written.
use esan_gbos.Prelude.{
  ℕ, String, Bool, true, false, not, ◌&&◌, Option, none, some, List, [], ◌∷◌, ◌++◌, if◌then◌else◌,
  opt_beq, ◌==◌, string_eq, nat_eq, pair_eq, triple_eq, leb, length,
}
use esan_gbos.Prelude.Dict.{Dict, lookup, insert}
use esan_gbos.Prelude.Json.{Json}
use esan_gbos.Tasks.Errors.{Error, lease_conflict, task_not_found, key_error, Result, ok, err}
use esan_gbos.Tasks.Models.{
  TaskStatus, FailureClassification, EventType, ActorType, ReasonCode, AgentTaskMetadata,
  TimelineEventMetadata, DeadLetterMetadata,
}
use esan_gbos.Tasks.Proposals.{
  ActionProposalRecord, MaterializationOutboxRecord, ModelInvocationRecord,
}

abbrev pub TaskKey : Type 0
TaskKey = String × String

abbrev pub AttemptKey : Type 0
AttemptKey = String × String × ℕ

pub record Repository : Type 0 where
  pub tasks : Dict TaskKey AgentTaskMetadata
  pub payloads : Dict TaskKey Json
  pub timeline : Dict TaskKey (List TimelineEventMetadata)
  pub idempotency : Dict TaskKey AgentTaskMetadata
  pub dead_letters : Dict TaskKey DeadLetterMetadata
  pub proposals : Dict AttemptKey ActionProposalRecord
  pub proposal_idempotency : Dict AttemptKey ActionProposalRecord
  pub materializations : Dict AttemptKey MaterializationOutboxRecord
  pub invocations : Dict TaskKey ModelInvocationRecord
  pub invocation_idempotency : Dict TaskKey ModelInvocationRecord

-- InMemoryAgentTaskRepository.__init__
unfoldable pub empty : Repository
empty = record {
  tasks = [];
  payloads = [];
  timeline = [];
  idempotency = [];
  dead_letters = [];
  proposals = [];
  proposal_idempotency = [];
  materializations = [];
  invocations = [];
  invocation_idempotency = [];
}

abbrev pub Action : Type 0 → Type 0
Action A = Repository → Result A × Repository

-- A call goes on with the result of the call before it, or raises what that one raised.
abbrev pub after : {A B : Type 0} → Result A × Repository → (A → Action B) → Result B × Repository
after (ok a, s) f = f a s
after (err e, s) f = (err e, s)

infixl 5 ◌>>=◌ ◌>>◌
abbrev pub ◌>>=◌ : {A B : Type 0} → Action A → (A → Action B) → Action B
◌>>=◌ m f s = after (m s) f

abbrev pub ◌>>◌ : {A B : Type 0} → Action A → Action B → Action B
m >> k = m >>= λ _. k

module _ {A : Type 0} where
  abbrev pub pure : A → Action A
  pure a s = (ok a, s)

  abbrev pub lift : Result A → Action A
  lift r s = (r, s)

  abbrev pub raise : Error → Action A
  raise e s = (err e, s)

  abbrev pub gets : (Repository → A) → Action A
  gets f s = (ok (f s), s)

  abbrev pub found : Option A → Error → Action A
  found none e = raise e
  found (some a) e = pure a

abbrev pub refuse : Bool → Error → Action (Unit {0})
refuse c e s = (if c then err e else ok tt, s)

abbrev pub modify : (Repository → Repository) → Action (Unit {0})
modify f s = (ok tt, f s)

abbrev pub key : AgentTaskMetadata → TaskKey
key m = (m.site_id, m.task_id)

abbrev pub idempotency_key_of : AgentTaskMetadata → TaskKey
idempotency_key_of m = (m.site_id, m.idempotency_key)

-- `task.status in {LEASED, RUNNING}`
abbrev pub is_leased : TaskStatus → Bool
is_leased TaskStatus.leased = true
is_leased TaskStatus.running = true
is_leased _ = false

-- `task.status in {QUEUED, RECHECK}`
abbrev pub is_waiting : TaskStatus → Bool
is_waiting TaskStatus.queued = true
is_waiting TaskStatus.recheck = true
is_waiting _ = false

abbrev pub is_status : TaskStatus → TaskStatus → Bool
is_status TaskStatus.leased TaskStatus.leased = true
is_status TaskStatus.running TaskStatus.running = true
is_status TaskStatus.succeeded TaskStatus.succeeded = true
is_status _ _ = false

-- `expires is not None and expires <= now`
abbrev pub has_expired : Option ℕ → ℕ → Bool
has_expired none now = false
has_expired (some t) now = leb t now

-- `expires is None or expires <= now`
abbrev pub is_over : Option ℕ → ℕ → Bool
is_over none now = true
is_over (some t) now = leb t now

-- _store_task
unfoldable pub store_task : AgentTaskMetadata → Repository → Repository
store_task task s = record s {
  tasks = insert (key task) task s.tasks;
  idempotency = insert (idempotency_key_of task) task s.idempotency;
}

-- The record that _append_event builds.
abbrev pub event_of :
    AgentTaskMetadata → ℕ → EventType → ℕ → ActorType → Option String → TimelineEventMetadata
event_of task sequence event_type occurred_at actor_type actor_ref = record {
  task_id = task.task_id;
  site_id = task.site_id;
  sequence = sequence;
  event_type = event_type;
  occurred_at = occurred_at;
  actor_type = actor_type;
  actor_ref = actor_ref;
  causation_id = task.causation_id;
  correlation_id = task.correlation_id;
}

-- _append_event: `self._timeline[key]` raises KeyError when the task has no timeline.
unfoldable pub append_event :
    AgentTaskMetadata → EventType → ℕ → ActorType → Option String → Action (Unit {0})
append_event task event_type now actor_type actor_ref = do
  events ← found (← gets (λ s. lookup (key task) s.timeline)) key_error
  let event = event_of task (length events) event_type now actor_type actor_ref
  modify (λ s. record s { timeline = insert (key task) (events ++ event ∷ []) s.timeline })

-- The negation of the refusal in _require_live_lease.
abbrev pub is_live : AgentTaskMetadata → String → ℕ → ℕ → Bool
is_live task worker_id expected_attempt now =
    is_leased task.status
    && (opt_beq task.lease_owner (some worker_id)
        && (not (is_over task.lease_expires_at now) && task.attempt == expected_attempt))

-- _require_live_lease
unfoldable pub require_live_lease : String → String → String → ℕ → ℕ → Action AgentTaskMetadata
require_live_lease site_id task_id worker_id expected_attempt now = do
  task ← found (← gets (λ s. lookup (site_id, task_id) s.tasks)) task_not_found
  refuse (not (is_live task worker_id expected_attempt now)) lease_conflict
  pure task

-- The task and the record that _move_to_dead_letter builds.
abbrev pub terminal_of : AgentTaskMetadata → ℕ → FailureClassification → AgentTaskMetadata
terminal_of task now classification = record task {
  status = TaskStatus.dead_letter;
  failure_classification = some classification;
  lease_owner = none;
  lease_expires_at = none;
  updated_at = now;
}

abbrev pub letter_of :
    AgentTaskMetadata → ℕ → FailureClassification → ReasonCode → DeadLetterMetadata
letter_of task now classification reason_code = record {
  task_id = task.task_id;
  site_id = task.site_id;
  attempts = task.attempt;
  failure_classification = classification;
  reason_code = reason_code;
  dead_lettered_at = now;
  causation_id = task.causation_id;
  correlation_id = task.correlation_id;
}

abbrev pub actor_of : Option String → ActorType
actor_of none = ActorType.system
actor_of (some _) = ActorType.worker

-- _move_to_dead_letter
unfoldable pub move_to_dead_letter :
    AgentTaskMetadata
    → ℕ
    → FailureClassification
    → ReasonCode
    → Option String
    → Action AgentTaskMetadata
move_to_dead_letter task now classification reason_code actor_ref = do
  let terminal = terminal_of task now classification
  let letter = letter_of task now classification reason_code
  modify (store_task terminal)
  modify (λ s. record s { dead_letters = insert (key task) letter s.dead_letters })
  append_event terminal EventType.dead_lettered now (actor_of actor_ref) actor_ref
  pure terminal
