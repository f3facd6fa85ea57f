-- ===== src/Agents/Outbox.antt =====
-- services/agent_runtime/materialization.py: the records of a delivery. The outbox repository, the
-- context resolver and the Frappe client are parameters; the client's calls are kept in the order
-- they are made.
use Prim.Native.String.{count}
use esan_gbos.Prelude.{
  ℕ, String, Bool, not, ◌&&◌, ◌||◌, Option, some, List, ◌==◌, string_eq, nat_eq, ltb,
}
use esan_gbos.Prelude.Int.{ℤ, pos, leb_ℤ}
use esan_gbos.Prelude.Json.{str, obj, end, field}
use esan_gbos.Tasks.Errors.{idempotency_conflict}
use esan_gbos.Tasks.Models.{Datetime}
use esan_gbos.Tasks.Proposals.{Externals}
use esan_gbos.Agents.Inputs.{Exception, Try, queue}
use esan_gbos.Agents.Intents.{
  MaterializationEnvelope, MaterializationContext, Operation, create, submit, MaterializationIntent,
  Formats,
}

pub record MaterializationClaim : Type 0 where
  pub materialization_id : String
  pub proposal_id : String
  pub site_id : String
  pub attempt : ℕ
  pub max_attempts : ℕ
  pub lease_owner : String
  pub lease_expires_at : Datetime
  pub envelope : MaterializationEnvelope

-- MaterializationClaim.__post_init__, as a test.
abbrev pub is_name : String → Bool
is_name s = not (s == "") && not (ltb 256 (count s))

abbrev pub is_claim : MaterializationClaim → Bool
is_claim c =
    is_name c.materialization_id
    && (is_name c.proposal_id
        && (is_name c.site_id
            && (not (ltb c.max_attempts c.attempt || c.max_attempts == 0)
                && (not (ltb 0 c.attempt && c.lease_owner == "") && c.lease_expires_at.is_aware))))

pub record FrappeDraftReceipt : Type 0 where
  pub doctype : String
  pub name : String
  pub revision : ℕ
  pub request_id : String
  pub request_digest : String

-- FrappeDraftReceipt.__post_init__, as a test.
abbrev pub is_receipt : Formats → FrappeDraftReceipt → Bool
is_receipt f r =
    is_name r.doctype && (is_name r.name && (is_name r.request_id && f.is_sha256 r.request_digest))

pub record MaterializationContextRequest : Type 0 where
  pub site_id : String
  pub task_id : String
  pub processing_purpose : String
  pub proposal_id : String
  pub subject_type : String
  pub subject_ref : String
  pub subject_revision : ℕ

-- MaterializationContextRequest.__post_init__, as a test.
abbrev pub is_within : Formats → String → ℕ → Bool
is_within f s maximum = not (f.strip s == "") && not (ltb maximum (count s))

abbrev pub is_context_request : Formats → MaterializationContextRequest → Bool
is_context_request f r =
    is_within f r.site_id 140
    && (is_within f r.task_id 256
        && (is_within f r.processing_purpose 80
            && (is_within f r.proposal_id 256
                && (is_within f r.subject_type 140 && is_within f r.subject_ref 256))))

-- One call of FrappeDraftClient.apply.
pub record Application : Type 0 where
  pub intent : MaterializationIntent
  pub request_id : String
  pub request_digest : String
  pub processing_purpose : String

pub data Disposition : Type 0 where
  retry dead_letter : Disposition

-- MaterializationRepository, over the states of its store.
pub record Outbox (S : Type 0) : Type 0 where
  pub claim : String → String → Datetime → ℤ → S → Try (Option MaterializationClaim) × S
  pub heartbeat : String → String → String → ℕ → Datetime → ℤ → S → Try (Unit {0}) × S
  pub acknowledge :
      String → String → String → ℕ → Datetime → FrappeDraftReceipt → S → Try (Unit {0}) × S
  pub fail :
      String → String → String → ℕ → Datetime → Datetime → String → S → Try (Option Disposition) × S

-- MaterializationWorker's attributes. What the client answers can depend on its earlier calls.
pub record MaterializationWorker (S : Type 0) : Type 0 where
  pub repository : Outbox S
  pub client : List Application → Application → Try FrappeDraftReceipt
  pub resolve : MaterializationContextRequest → Try (Option MaterializationContext)
  pub worker_id : String
  pub lease_duration : ℤ
  pub retry_delay : ℕ

-- MaterializationWorker.__init__, as a test.
abbrev pub is_delivery_worker : {S : Type 0} → MaterializationWorker S → Bool
is_delivery_worker w =
    not (w.worker_id == "") && (not (leb_ℤ w.lease_duration (pos 0)) && not (w.retry_delay == 0))

-- What the clock reads, in the order of a round.
pub record Clock : Type 0 where
  pub claimed_at : Datetime
  pub begun_at : Datetime
  pub shaped_at : Datetime
  pub acknowledged_at : Datetime
  pub failed_at : Datetime
  pub retry_from : Datetime

pub record World (S : Type 0) : Type 0 where
  pub store : S
  pub applied : List Application

pub data DeliveryStatus : Type 0 where
  idle succeeded retry dead_letter lease_lost : DeliveryStatus

pub record MaterializationRunResult : Type 0 where
  pub status : DeliveryStatus
  pub materialization_id : Option String
  pub attempt : Option ℕ
  pub error_code : Option String

abbrev pub run_result :
    DeliveryStatus → MaterializationClaim → Option String → MaterializationRunResult
run_result status claim error_code = record {
  status = status;
  materialization_id = some claim.materialization_id;
  attempt = some claim.attempt;
  error_code = error_code;
}

abbrev pub operation_text : Operation → String
operation_text create = "create"
operation_text submit = "submit"

-- _intent_digest
abbrev pub intent_digest : Externals → MaterializationIntent → String
intent_digest x intent = x.payload_digest (
    obj (
      field "operation" (str (operation_text intent.operation))
        (field "doctype" (str intent.doctype) (field "values" (obj intent.values) end))))

abbrev pub application_of : Externals → MaterializationClaim → MaterializationIntent → Application
application_of x claim intent = record {
  intent = intent;
  request_id = claim.materialization_id;
  request_digest = intent_digest x intent;
  processing_purpose = claim.envelope.processing_purpose;
}

-- The negation of the condition of _validate_receipt.
abbrev pub is_receipt_of : Application → FrappeDraftReceipt → Bool
is_receipt_of application receipt =
    receipt.request_id == application.request_id
    && (receipt.request_digest == application.request_digest
        && receipt.doctype == application.intent.doctype)

abbrev pub error_code_of : Exception → String
error_code_of (queue idempotency_conflict) = "frappe_body_conflict"
error_code_of _ = "materialization_failed"
