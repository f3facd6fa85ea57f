-- ===== src/Tasks/Models.antt =====
-- services/agent_runtime/models.py: the records of the Agent Task queue. An instant is the number
-- of microseconds since a fixed origin in UTC.
use esan_gbos.Prelude.{
  ℕ, String, Bool, not, ◌&&◌, Option, some, List, [], ◌∷◌, ◌==◌, string_eq, opt_beq, leb, all,
}
use esan_gbos.Prelude.Json.{Json}

-- A Python datetime: its instant, and whether it has a time zone.
pub record Datetime : Type 0 where
  pub instant : ℕ
  pub is_aware : Bool

pub data TaskStatus : Type 0 where
  queued leased running recheck succeeded failed dead_letter cancelled : TaskStatus

pub data FailureClassification : Type 0 where
  budget_exhausted policy_denied tool_failure invalid_output dependency internal :
      FailureClassification

-- The texts that the code passes as `event_type` and `actor_type`.
pub data EventType : Type 0 where
  created leased running succeeded recheck_scheduled dead_lettered : EventType

pub data ActorType : Type 0 where
  system worker : ActorType

pub data ReasonCode : Type 0 where
  lease_expired_max_attempts max_attempts_exhausted : ReasonCode

-- AgentTaskSubmission. Its payload_digest, a digest of the other fields, is given.
pub record AgentTaskSubmission : Type 0 where
  pub task_id : String
  pub site_id : String
  pub processing_purpose : String
  pub idempotency_key : String
  pub agent_type : String
  pub subject_type : String
  pub subject_ref : String
  pub due_at : ℕ
  pub priority : ℕ
  pub max_attempts : ℕ
  pub causation_id : String
  pub correlation_id : String
  pub payload : Json
  pub parent_task_id : Option String
  pub payload_digest : String

-- AgentTaskSubmission.__post_init__, as a test: whether it passes. The time zone of due_at and the
-- sign of priority are in their types, and any JSON value has a digest.
unfoldable pub is_submission : AgentTaskSubmission → Bool
is_submission s =
    all (λ text. not (text == ""))
      (s.task_id ∷ s.site_id ∷ s.processing_purpose ∷ s.idempotency_key ∷ s.agent_type
        ∷ s.subject_type ∷ s.subject_ref ∷ s.causation_id ∷ s.correlation_id ∷ [])
    && (leb s.priority 100
        && (leb 1 s.max_attempts
            && (leb s.max_attempts 100 && not (opt_beq s.parent_task_id (some s.task_id)))))

pub record AgentTaskMetadata : Type 0 where
  pub task_id : String
  pub site_id : String
  pub processing_purpose : String
  pub idempotency_key : String
  pub payload_digest : String
  pub agent_type : String
  pub subject_type : String
  pub subject_ref : String
  pub status : TaskStatus
  pub due_at : ℕ
  pub priority : ℕ
  pub attempt : ℕ
  pub max_attempts : ℕ
  pub causation_id : String
  pub correlation_id : String
  pub parent_task_id : Option String
  pub output_artifact_refs : List String
  pub failure_classification : Option FailureClassification
  pub lease_owner : Option String
  pub lease_expires_at : Option ℕ
  pub created_at : ℕ
  pub updated_at : ℕ

pub record TimelineEventMetadata : Type 0 where
  pub task_id : String
  pub site_id : String
  pub sequence : ℕ
  pub event_type : EventType
  pub occurred_at : ℕ
  pub actor_type : ActorType
  pub actor_ref : Option String
  pub causation_id : String
  pub correlation_id : String

pub record DeadLetterMetadata : Type 0 where
  pub task_id : String
  pub site_id : String
  pub attempts : ℕ
  pub failure_classification : FailureClassification
  pub reason_code : ReasonCode
  pub dead_lettered_at : ℕ
  pub causation_id : String
  pub correlation_id : String
