-- ===== src/Agents/Orchestrator.antt =====
-- services/agent_runtime/agents.py: AgentOrchestrator, which asks a model provider for a proposal
-- between two decisions of the action guard.
use esan_gbos.Prelude.{
  ℕ, String, Bool, true, false, not, ◌&&◌, ◌||◌, none, some, List, [], ◌∷◌, ◌==◌, string_eq, nat_eq,
  ref_eq, ltb, contains, all, length, pair_eq,
}
use esan_gbos.Prelude.Int.{pos}
use esan_gbos.Prelude.Json.{Json, num, str, arr, obj, Fields, end, field}
use esan_gbos.Tasks.Models.{Datetime}
use esan_gbos.Tasks.Proposals.{ModelInvocationRecord}
use esan_gbos.Tasks.Documents.{is_empty}
use esan_gbos.Tasks.Payload.{items_of, fact_items}
use esan_gbos.Guard.Policy as Guard
use esan_gbos.Guard.Policy.{
  ActionRequest, GuardOutcome, allow, require_human, deny, GuardDecision, EvaluationPhase, pre_tool,
  post_result, evaluate, policy_version,
}
use esan_gbos.Agents.Inputs.{
  Try, gave, execution, budget, ◌>>=◌, ◌>>◌, throw_if, AgentKind, sales, purchase, product, ceo,
  AgentInput,
}

pub record AgentBudget : Type 0 where
  pub max_input_chars : ℕ
  pub max_output_chars : ℕ
  pub max_steps : ℕ

-- AgentBudget.__post_init__, as a test.
abbrev pub is_budget : AgentBudget → Bool
is_budget b = not (b.max_input_chars == 0 || (b.max_output_chars == 0 || b.max_steps == 0))

abbrev pub default_budget : AgentBudget
default_budget = record { max_input_chars = 12000; max_output_chars = 4000; max_steps = 4 }

-- ProviderOutput; its confidence is kept as a text.
pub record ProviderOutput : Type 0 where
  pub action_type : String
  pub payload : Fields
  pub confidence : String
  pub injection_detected : Bool
  pub prompt_version : String
  pub network_calls : ℕ
  pub model_api_calls : ℕ
  pub tool_calls : ℕ
  pub invocations : List ModelInvocationRecord

pub record ModelProvider : Type 0 where
  pub provider_version : String
  pub tool_version : String
  pub generate : AgentInput → Try ProviderOutput

-- The whole AgentExecutionResult.
pub record Execution : Type 0 where
  pub action_proposal : Fields
  pub pre_guard : GuardDecision
  pub post_guard : GuardDecision
  pub provider_version : String
  pub tool_version : String
  pub prompt_version : String
  pub policy_version : String
  pub confidence : String
  pub injection_detected : Bool
  pub network_calls : ℕ
  pub model_api_calls : ℕ
  pub tool_calls : ℕ
  pub budget : AgentBudget
  pub invocations : List ModelInvocationRecord

-- What the standard library computes: the length of a text and of canonical JSON, its SHA-256, the
-- first 24 digits of that under a prefix, and the ISO 8601 text of a time.
pub record Texts : Type 0 where
  pub chars : String → ℕ
  pub json_chars : Json → ℕ
  pub json_sha256 : Json → String
  pub proposal_id : Json → String
  pub isoformat : Datetime → String

pub record AgentOrchestrator : Type 0 where
  pub provider : ModelProvider
  pub known_evidence_refs : List String
  pub known_fact_refs : List (String × ℕ)
  pub known_subject_refs : List (String × String)

-- A row of _PROFILES: the purpose, the subject type and the action type.
abbrev pub Profile : Type 0
Profile = String × String × String

-- _PROFILES
abbrev pub profile_of : AgentKind → Profile
profile_of sales = ("sales_follow_up", "CRM Deal", "internal.work_item.propose")
profile_of purchase =
    ("procurement_coordination", "GBOS Sourcing Event", "internal.review_case.propose")
profile_of product =
    ("product_sample_management", "GBOS Sample Feedback", "internal.work_item.propose")
profile_of ceo =
    ("metric_reporting", "GBOS Synthetic Executive Snapshot", "internal.ai_draft.propose")

-- AgentKind's values
abbrev pub kind_value : AgentKind → String
kind_value sales = "sales"
kind_value purchase = "purchase"
kind_value product = "product"
kind_value ceo = "ceo"

abbrev pub is_purchase : AgentKind → Bool
is_purchase purchase = true
is_purchase _ = false

abbrev pub is_allowed : GuardOutcome → Bool
is_allowed allow = true
is_allowed require_human = false
is_allowed deny = false

abbrev pub fits_profile : Profile → AgentInput → Bool
fits_profile (purpose, subject_type, action_type) request =
    request.processing_purpose == purpose
    && (request.subject_type == subject_type && request.expected_action_type == action_type)

-- The request that the guard decides on, before and after.
abbrev pub guard_request : AgentInput → ActionRequest
guard_request request = record {
  request_id = request.task_id;
  site_id = request.site_id;
  processing_purpose = request.processing_purpose;
  action_type = request.expected_action_type;
  requested_by = request.requested_by;
  target_ref = request.subject_ref;
  target_revision = request.subject_revision;
  evidence_refs = request.evidence_refs;
  granted_scopes = "gbos-propose" ∷ [];
  correlation_id = request.correlation_id;
  payload = field "subject_type" (str request.subject_type) end;
}

-- The payload that the guard checks after the provider's answer.
abbrev pub result_payload : AgentInput → Fields → Fields
result_payload request proposal = field "site_id" (str request.site_id) (
    field "processing_purpose" (str request.processing_purpose) (
      field "target_revision" (num (pos request.subject_revision)) (
        field "evidence_refs" (arr (items_of request.evidence_refs))
          (field "proposal" (obj proposal) end))))

module _ (t : Texts) (g : Guard.Externals) (o : AgentOrchestrator) where
  -- _validate_request
  unfoldable pub validate_request : AgentInput → AgentBudget → Try (Unit {0})
  validate_request request limits = do
    throw_if (ltb limits.max_input_chars (t.chars request.raw_context)) budget
    throw_if (ltb limits.max_steps 3) budget
    throw_if (not (fits_profile (profile_of request.agent_kind) request))
        (execution "agent profile, purpose, subject, or action mismatch")
    throw_if (not (is_empty request.requested_tools))
        (execution "Gate 4 deterministic agents do not expose tools")
    throw_if
        (is_empty request.evidence_refs
          || not (all (λ r. contains r o.known_evidence_refs) request.evidence_refs))
        (execution "unknown or missing evidence reference")
    throw_if
        (is_empty request.fact_version_refs
          || not (all (λ r. contains r o.known_fact_refs) request.fact_version_refs))
        (execution "unknown or missing verified fact version")
    throw_if (not (contains (request.subject_type, request.subject_ref) o.known_subject_refs))
        (execution "unknown subject reference")
    throw_if (is_purchase request.agent_kind && ltb (length request.candidate_refs) 2)
        (execution "purchase comparison requires at least two candidates")

  abbrev pub payload_digest : ProviderOutput → String
  payload_digest output = t.json_sha256 (obj output.payload)

  -- `identity`
  abbrev pub identity : AgentInput → ProviderOutput → Json
  identity request output = obj (
      field "task_id" (str request.task_id) (
        field "site_id" (str request.site_id) (
          field "agent_kind" (str (kind_value request.agent_kind)) (
            field "subject_type" (str request.subject_type) (
              field "subject_ref" (str request.subject_ref) (
                field "subject_revision" (num (pos request.subject_revision)) (
                  field "payload_digest" (str (payload_digest output)) (
                    field "provider_version" (str o.provider.provider_version)
                      (field "prompt_version" (str output.prompt_version) end)))))))))

  -- _build_proposal
  unfoldable pub build_proposal : AgentInput → ProviderOutput → Datetime → Fields
  build_proposal request output now = field "schema_version" (str "1.0") (
      field "action_proposal_id" (str (t.proposal_id (identity request output))) (
        field "site_id" (str request.site_id) (
          field "processing_purpose" (str request.processing_purpose) (
            field "proposal_version" (str "action-proposal-v1") (
              field "proposal_revision" (num (pos 1)) (
                field "action_type" (str output.action_type) (
                  field "status" (str "proposed") (
                    field "decision_ref" (str request.decision_ref) (
                      field "fact_version_refs" (arr (fact_items request.fact_version_refs)) (
                        field "evidence_refs" (arr (items_of request.evidence_refs)) (
                          field "requested_by" (str request.requested_by) (
                            field "target_ref" (str request.subject_ref) (
                              field "target_revision" (num (pos request.subject_revision)) (
                                field "payload" (obj output.payload) (
                                  field "payload_digest" (str (payload_digest output)) (
                                    field "policy_version" (str policy_version) (
                                      field "created_at" (str (t.isoformat now)) (
                                        field "correlation_id" (str request.correlation_id)
                                          end))))))))))))))))))

  -- AgentOrchestrator.execute
  unfoldable pub execute : AgentInput → Datetime → AgentBudget → Try Execution
  execute request now limits = do
    validate_request request limits
    let pre_guard = evaluate g (guard_request request) now pre_tool none
    throw_if (not (is_allowed pre_guard.outcome))
        (execution "pre-tool policy denied the agent proposal")
    output ← o.provider.generate request
    throw_if (not (output.tool_calls == 0)) (execution "provider tools are forbidden")
    throw_if (not (output.action_type == request.expected_action_type))
        (execution "provider attempted an unexpected action type")
    let proposal = build_proposal request output now
    throw_if (ltb limits.max_output_chars (t.json_chars (obj proposal))) budget
    let post_guard =
        evaluate g (guard_request request) now post_result (some (result_payload request proposal))
    throw_if (not (is_allowed post_guard.outcome))
        (execution "post-result policy denied the agent proposal")
    gave (record {
      action_proposal = proposal;
      pre_guard = pre_guard;
      post_guard = post_guard;
      provider_version = o.provider.provider_version;
      tool_version = o.provider.tool_version;
      prompt_version = output.prompt_version;
      policy_version = policy_version;
      confidence = output.confidence;
      injection_detected = output.injection_detected;
      network_calls = output.network_calls;
      model_api_calls = output.model_api_calls;
      tool_calls = output.tool_calls;
      budget = limits;
      invocations = output.invocations;
    })
