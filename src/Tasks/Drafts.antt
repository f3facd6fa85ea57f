-- ===== src/Tasks/Drafts.antt =====
-- services/agent_runtime/proposals.py: the checks of a proposal record and its builders.
use esan_gbos.Prelude.{
  ℕ, String, Bool, false, not, ◌&&◌, ◌||◌, none, some, true, any, List, [], ◌∷◌, if◌then◌else◌,
  ◌==◌, string_eq, nat_eq, ref_eq, contains, is_unique, map,
}
use text.Mathlib.Text.{find?}
use esan_gbos.Prelude.Json.{Json, str, arr, obj, Items, nil, cons, Fields, end, field}
use esan_gbos.Tasks.Errors.{
  validation_error, value_error, Result, ok, err, ◌>>=◌, ◌>>◌, raise_if, or_raise,
}
use esan_gbos.Tasks.Models.{Datetime, AgentTaskMetadata}
use esan_gbos.Tasks.Proposals.{
  AgentExecutionResult, Externals, ActionProposalRecord, MaterializationOutboxRecord, pending,
}
use esan_gbos.Tasks.Documents.{is_empty, non_negative}
use esan_gbos.Tasks.Readings.{read_proposal}

abbrev pub allowed_action_types : List String
allowed_action_types =
    "internal.ai_draft.propose" ∷ "internal.work_item.propose" ∷ "internal.review_case.propose"
    ∷ "internal.work_item.transition.propose" ∷ []

abbrev pub forbidden_keys : List String
forbidden_keys =
    "raw_context" ∷ "message_body" ∷ "message_text" ∷ "email" ∷ "phone" ∷ "telephone"
    ∷ "person_name" ∷ "customer_name" ∷ "contact_name" ∷ "supplier_name" ∷ "organization_name"
    ∷ "prompt" ∷ "prompt_text" ∷ "response" ∷ "response_text" ∷ "tokenized_context"
    ∷ "draft_mutation" ∷ "approved_command" ∷ "external_send" ∷ "outbound" ∷ "quotation"
    ∷ "formal_price" ∷ "price" ∷ "formal_discount" ∷ "discount" ∷ "delivery_commitment"
    ∷ "delivery_promise" ∷ "order" ∷ "won" ∷ "lost" ∷ "selected_supplier"
    ∷ "supplier_final_selection" ∷ "official_kpi" ∷ "metric_value" ∷ []

-- _FORBIDDEN_TEXT
unfoldable pub forbidden_text : List String
forbidden_text =
    "external.message.send" ∷ "outbound email" ∷ "formal quotation" ∷ "formal price"
    ∷ "formal discount" ∷ "delivery commitment" ∷ "delivery promise" ∷ "create order" ∷ "deal won"
    ∷ "deal lost" ∷ "final supplier" ∷ "select final supplier" ∷ "draftmutation" ∷ "approvedcommand"
    ∷ "official kpi" ∷ "正式报价" ∷ "正式价格" ∷ "正式折扣" ∷ "承诺交期" ∷ "创建订单" ∷ "赢单" ∷ "输单" ∷ "最终供应商" ∷ "正式kpi"
    ∷ []

-- `marker in value`
abbrev pub occurs_in : String → String → Bool
occurs_in marker value = elim (find? value marker) [ none ↦ false | some _ ↦ true ]

-- require_aware: a naive datetime raises ValidationError.
abbrev pub require_aware : Datetime → Result ℕ
require_aware d = if d.is_aware then ok d.instant else err validation_error

module _ (x : Externals) where
  -- The test on texts in _reject_unsafe_content.
  unfoldable pub has_forbidden_text : String → Bool
  has_forbidden_text value =
      any
        (λ marker.
          occurs_in (x.casefold marker) (x.casefold value)
          || occurs_in (x.compact (x.casefold marker)) (x.compact (x.casefold value)))
        forbidden_text

  -- _reject_unsafe_content, as a test: whether it raises.
  unfoldable mutual
    pub is_unsafe : Json → Bool
    is_unsafe (obj fs) = is_unsafe_fields fs
    is_unsafe (arr xs) = is_unsafe_items xs
    is_unsafe (str s) = has_forbidden_text s || x.has_direct_pii s
    is_unsafe _ = false

    pub is_unsafe_fields : Fields → Bool
    is_unsafe_fields end = false
    is_unsafe_fields (field k v fs) =
        contains (x.normalized k) forbidden_keys || (is_unsafe v || is_unsafe_fields fs)

    pub is_unsafe_items : Items → Bool
    is_unsafe_items nil = false
    is_unsafe_items (cons v xs) = is_unsafe v || is_unsafe_items xs

  -- The checks of ActionProposalRecord.__post_init__.
  unfoldable pub check_proposal : ActionProposalRecord → Result (Unit {0})
  unfolding is_unsafe
  check_proposal p = do
    raise_if (not (contains p.action_type allowed_action_types)) validation_error
    raise_if (not (p.status == "proposed" && (p.origin == "AI" && p.review_status == "AI Draft")))
        validation_error
    raise_if (p.task_attempt == 0) validation_error
    raise_if (is_empty p.evidence_refs || not (is_unique p.evidence_refs)) validation_error
    raise_if (not (is_unique p.invocation_ids)) validation_error
    raise_if (not (x.is_digest p.payload_digest)) validation_error
    raise_if (not (x.is_digest p.bundle_digest)) validation_error
    raise_if (is_unsafe p.document) validation_error

  abbrev checked : ActionProposalRecord → Result ActionProposalRecord
  checked p = check_proposal p >> ok p

  -- ActionProposalRecord.from_execution
  unfoldable pub from_execution :
      AgentTaskMetadata → AgentExecutionResult → Result ActionProposalRecord
  from_execution task result = do
    parts ← or_raise (read_proposal x task result.action_proposal) validation_error
    created ← or_raise (x.from_isoformat parts.created_at_value) value_error
    subject_revision ← or_raise (non_negative parts.target_revision) validation_error
    created_at ← require_aware created
    checked (record {
      proposal_id = parts.proposal_id;
      site_id = task.site_id;
      idempotency_key = (task.task_id, task.attempt);
      task_id = task.task_id;
      task_attempt = task.attempt;
      action_type = parts.action_type;
      status = "proposed";
      origin = "AI";
      review_status = "AI Draft";
      subject_type = task.subject_type;
      subject_ref = task.subject_ref;
      subject_revision = subject_revision;
      evidence_refs = parts.evidence_refs;
      fact_version_refs = parts.fact_version_refs;
      invocation_ids = map (λ r. r.invocation_id) result.invocations;
      payload_digest = parts.payload_digest;
      bundle_digest =
          x.bundle_digest task.task_id task.attempt result.action_proposal result.invocations;
      document = result.action_proposal;
      created_at = created_at;
    })

-- MaterializationOutboxRecord.from_proposal
unfoldable pub from_proposal : ActionProposalRecord → ℕ → MaterializationOutboxRecord
from_proposal proposal created_at = record {
  proposal_id = proposal.proposal_id;
  site_id = proposal.site_id;
  task_id = proposal.task_id;
  task_attempt = proposal.task_attempt;
  status = pending;
  origin = "AI";
  review_status = "AI Draft";
  created_at = created_at;
  attempt = 0;
  max_attempts = 5;
  next_attempt_at = some created_at;
  updated_at = some created_at;
}
