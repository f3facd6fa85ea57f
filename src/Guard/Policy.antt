-- ===== src/Guard/Policy.antt =====
-- services/action_guard/policy.py and models.py: ActionGuard.evaluate.
use esan_gbos.Prelude.{
  ℕ, String, Bool, true, false, not, ◌&&◌, ◌||◌, Option, none, some, List, [], ◌∷◌, if◌then◌else◌,
  ◌==◌, string_eq, contains, is_unique,
}
use esan_gbos.Prelude.Int.{pos, int_beq}
use esan_gbos.Prelude.Dict.{Dict, lookup}
use esan_gbos.Prelude.Json.{
  Json, boolean, num, float, str, arr, obj, Items, nil, cons, Fields, end, field, get, int_of,
}
use text.Mathlib.Text.{starts_with}
use esan_gbos.Tasks.Models.{Datetime}

pub data EvaluationPhase : Type 0 where
  pre_tool post_result : EvaluationPhase

pub data GuardOutcome : Type 0 where
  allow require_human deny : GuardOutcome

pub record ActionRequest : Type 0 where
  pub request_id : String
  pub site_id : String
  pub processing_purpose : String
  pub action_type : String
  pub requested_by : String
  pub target_ref : String
  pub target_revision : ℕ
  pub evidence_refs : List String
  pub granted_scopes : List String
  pub correlation_id : String
  pub payload : Fields

-- ActionRequest.__post_init__, past the sign of the revision.
abbrev pub is_request : ActionRequest → Bool
is_request request = is_unique request.evidence_refs && is_unique request.granted_scopes

pub record GuardDecision : Type 0 where
  pub guard_decision_id : String
  pub request_id : String
  pub site_id : String
  pub processing_purpose : String
  pub action_type : String
  pub target_revision : ℕ
  pub evaluation_phase : EvaluationPhase
  pub outcome : GuardOutcome
  pub policy_version : String
  pub reason_codes : List String
  pub evidence_refs : List String
  pub evaluated_at : Datetime
  pub correlation_id : String

abbrev pub policy_version : String
policy_version = "action-guard-v1"

-- READ_ACTION_SCOPES
unfoldable pub read_action_scopes : Dict String String
read_action_scopes =
    ("context.evidence.get", "gbos-read")
    ∷ ("context.fact.get", "gbos-read")
    ∷ ("context.fact.list", "gbos-read")
    ∷ ("context.decision.get", "gbos-read")
    ∷ []

unfoldable pub internal_proposals : List String
internal_proposals =
    "internal.ai_draft.propose" ∷ "internal.fact.propose" ∷ "internal.work_item.propose"
    ∷ "internal.review_case.propose" ∷ []

unfoldable pub human_required_actions : List String
human_required_actions =
    "internal.fact.confirm" ∷ "internal.work_item.transition" ∷ "internal.supplier.select"
    ∷ "formal.quotation.publish" ∷ "external.message.send" ∷ "deal.won" ∷ "deal.lost"
    ∷ "order.create" ∷ "payment.create" ∷ []

unfoldable pub forbidden_exact_actions : List String
forbidden_exact_actions =
    "internal.record.delete" ∷ "internal.record.archive" ∷ "direct_database.write"
    ∷ "frappe.client.insert" ∷ "frappe.client.set_value" ∷ "frappe.client.delete" ∷ []

unfoldable pub forbidden_result_keys : List String
forbidden_result_keys =
    "tool_calls" ∷ "draft_mutation" ∷ "approved_command" ∷ "execution" ∷ "frappe_write"
    ∷ "kingdee_mutation" ∷ "external_send" ∷ "formal_price" ∷ "formal_discount" ∷ "payment"
    ∷ "delivery_commitment" ∷ "order" ∷ "deal_won" ∷ "deal_lost" ∷ "selected_supplier"
    ∷ "official_kpi" ∷ []

-- What the standard library computes for the guard: the folding of a key by two regular
-- expressions, whether a float is a given integer, and the digest of the decision's document.
pub record Externals : Type 0 where
  pub normalized : String → String
  pub is_integer : String → ℕ → Bool
  pub decision_id : ActionRequest → EvaluationPhase → Option Fields → String → String

-- An outcome and its reason codes.
abbrev pub Verdict : Type 0
Verdict = GuardOutcome × List String

abbrev pub is_empty : List String → Bool
is_empty [] = true
is_empty (_ ∷ _) = false

-- _classify_request for an action that is no read.
abbrev pub classify_write : ActionRequest → Verdict
classify_write request =
    if contains request.action_type internal_proposals
    then (if not (contains "gbos-propose" request.granted_scopes)
        then (deny, "required_scope_missing" ∷ [])
        else (allow, "scoped_internal_proposal" ∷ []))
    else if contains request.action_type human_required_actions
    then (if not (contains "gbos-propose" request.granted_scopes)
        then (deny, "required_scope_missing" ∷ [])
        else (require_human, "human_authorization_required" ∷ []))
    else (deny, "unknown_action" ∷ [])

-- _classify_request from its look at READ_ACTION_SCOPES on.
abbrev pub classify_scoped : Option String → ActionRequest → Verdict
classify_scoped none request = classify_write request
classify_scoped (some required_scope) request =
    if not (contains required_scope request.granted_scopes)
    then (deny, "required_scope_missing" ∷ [])
    else (allow, "scoped_read" ∷ [])

-- _classify_request
unfoldable pub classify_request : ActionRequest → Verdict
classify_request request =
    if is_empty request.evidence_refs
    then (deny, "evidence_required" ∷ [])
    else if starts_with request.action_type "kingdee."
    then (deny, "forbidden_capability" ∷ [])
    else if contains request.action_type forbidden_exact_actions
    then (deny, "forbidden_capability" ∷ [])
    else classify_scoped (lookup request.action_type read_action_scopes) request

-- `value == text`
abbrev pub is_text : Option Json → String → Bool
is_text (some (str s)) wanted = s == wanted
is_text _ wanted = false

-- `list(value) == texts`
abbrev pub are_texts : Items → List String → Bool
are_texts nil [] = true
are_texts (cons (str s) xs) (t ∷ ts) = s == t && are_texts xs ts
are_texts _ _ = false

abbrev pub is_text_list : Option Json → List String → Bool
is_text_list (some (arr xs)) wanted = are_texts xs wanted
is_text_list _ wanted = false

module _ (x : Externals) where
  -- _contains_forbidden_result_key
  unfoldable mutual
    pub has_forbidden_key : Json → Bool
    has_forbidden_key (obj fs) = has_forbidden_field fs
    has_forbidden_key (arr xs) = has_forbidden_item xs
    has_forbidden_key _ = false

    pub has_forbidden_field : Fields → Bool
    has_forbidden_field end = false
    has_forbidden_field (field k v fs) =
        contains (x.normalized k) forbidden_result_keys
        || (has_forbidden_key v || has_forbidden_field fs)

    pub has_forbidden_item : Items → Bool
    has_forbidden_item nil = false
    has_forbidden_item (cons v xs) = has_forbidden_key v || has_forbidden_item xs

  -- `value == revision`, where Python's booleans and floats count as numbers.
  abbrev pub is_revision : Option Json → ℕ → Bool
  is_revision (some (num n)) revision = int_beq n (pos revision)
  is_revision (some (boolean b)) revision = int_beq (int_of b) (pos revision)
  is_revision (some (float f)) revision = x.is_integer f revision
  is_revision _ revision = false

  -- _validate_result
  unfoldable pub validate_result : ActionRequest → Option Fields → Verdict
  validate_result request none = (deny, "result_required" ∷ [])
  validate_result request (some result) =
      if has_forbidden_field result
      then (deny, "execution_shape_forbidden" ∷ [])
      else if not (is_text (get "site_id" result) request.site_id)
      then (deny, "site_mismatch" ∷ [])
      else if not (is_text (get "processing_purpose" result) request.processing_purpose)
      then (deny, "purpose_mismatch" ∷ [])
      else if not (is_revision (get "target_revision" result) request.target_revision)
      then (deny, "target_revision_mismatch" ∷ [])
      else if not (is_text_list (get "evidence_refs" result) request.evidence_refs)
      then (deny, "evidence_mismatch" ∷ [])
      else (allow, "post_result_verified" ∷ [])

  -- The outcome and reasons that evaluate settles on.
  abbrev pub settle_verdict : EvaluationPhase → Verdict → ActionRequest → Option Fields → Verdict
  settle_verdict post_result (allow, _) request result = validate_result request result
  settle_verdict _ verdict request result = verdict

  -- ActionGuard.evaluate
  unfoldable pub evaluate :
      ActionRequest → Datetime → EvaluationPhase → Option Fields → GuardDecision
  evaluate request now phase result =
      let verdict = settle_verdict phase (classify_request request) request result in
      record {
        guard_decision_id = x.decision_id request phase result policy_version;
        request_id = request.request_id;
        site_id = request.site_id;
        processing_purpose = request.processing_purpose;
        action_type = request.action_type;
        target_revision = request.target_revision;
        evaluation_phase = phase;
        outcome = verdict.0;
        policy_version = policy_version;
        reason_codes = verdict.1;
        evidence_refs = request.evidence_refs;
        evaluated_at = now;
        correlation_id = request.correlation_id;
      }
