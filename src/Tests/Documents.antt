-- ===== src/Tests/Documents.antt =====
-- Payloads of services/agent_runtime/models.py, proposals of proposals.py, and results that the
-- action guard sees.
use esan_gbos.Prelude.{String, false, none, some, List, [], ◌∷◌, ◌≡◌, ◌≢◌, refl, string_eq}
use esan_gbos.Prelude.Int.{pos}
use esan_gbos.Prelude.Json.{Fields, obj, end, field, str, arr, num, nil, cons}
use esan_gbos.Prelude.Dict.{lookup}
use esan_gbos.Tasks.Errors.{ok}
use esan_gbos.Tasks.Proposals.{ActionProposalRecord}
use esan_gbos.Tasks.Readings.{read_proposal}
use esan_gbos.Tasks.Drafts.{
  from_execution, check_proposal, is_unsafe, has_forbidden_text, forbidden_text,
}
use esan_gbos.Tasks.Payload.{LocalPilotTaskPayload, to_mapping, from_mapping}
use esan_gbos.Tasks.Safety.{IsSafe, from_execution-IsSafe}
use esan_gbos.Tasks.RoundTrip.{from_mapping-to_mapping}
use esan_gbos.Tasks.Fencing.{aware}
use esan_gbos.Guard.Policy.{
  Externals, ActionRequest, allow, pre_tool, post_result, evaluate, classify_request,
  validate_result, has_forbidden_field, read_action_scopes, internal_proposals,
  human_required_actions, forbidden_exact_actions, forbidden_result_keys,
}
use esan_gbos.Guard.Decisions.{
  IsAuthorized, IsBound, evaluate-IsAuthorized, evaluate-IsBound, human_action-kept,
}
use esan_gbos.Tests.Queue.{ext, pats, leased_task}
use esan_gbos.Tests.Completions.{document, result}

abbrev proposal : ActionProposalRecord
proposal = record {
  proposal_id = "P";
  site_id = "S";
  idempotency_key = ("T", 1);
  task_id = "T";
  task_attempt = 1;
  action_type = "internal.work_item.propose";
  status = "proposed";
  origin = "AI";
  review_status = "AI Draft";
  subject_type = "Deal";
  subject_ref = "D1";
  subject_revision = 1;
  evidence_refs = "E" ∷ [];
  fact_version_refs = [];
  invocation_ids = "I" ∷ "J" ∷ [];
  payload_digest = "d";
  bundle_digest = "b";
  document = document;
  created_at = 5;
}

from_execution-IsSafe_example : IsSafe ext leased_task result proposal
unfolding from_execution check_proposal read_proposal is_unsafe has_forbidden_text forbidden_text
from_execution-IsSafe_example = from_execution-IsSafe ext leased_task result proposal refl

abbrev pub payload : LocalPilotTaskPayload
payload = record {
  evidence_refs = "E" ∷ [];
  fact_version_refs = ("F", 2) ∷ [];
  subject_revision = 3;
  requested_by = "u";
  decision_ref = "R";
  expected_action_type = "internal.work_item.propose";
  candidate_refs = [];
  schema_version = "local-pilot-agent-task-v1";
}

from_mapping-to_mapping_example : from_mapping pats (to_mapping payload) ≡ ok payload
from_mapping-to_mapping_example = from_mapping-to_mapping pats payload (λ k h. refl) refl refl refl

abbrev pub mapping : Fields
mapping = field "schema_version" (str "local-pilot-agent-task-v1") (
    field "evidence_refs" (arr (cons (str "E") nil)) (
      field "fact_version_refs"
        (arr (cons (obj (field "fact_id" (str "F") (field "fact_version" (num (pos 2)) end))) nil))
        (field "subject" (obj (field "revision" (num (pos 3)) end)) (
          field "request"
            (obj (
              field "requested_by" (str "u") (
                field "decision_ref" (str "R") (
                  field "expected_action_type" (str "internal.work_item.propose")
                    (field "candidate_refs" (arr nil) end)))))
            end))))

abbrev pub guard : Externals
guard = record {
  normalized = λ s. s;
  is_integer = λ f n. false;
  decision_id = λ request phase r v. "guard";
}

abbrev request : String → List String → ActionRequest
request action_type scopes = record {
  request_id = "Q";
  site_id = "S";
  processing_purpose = "pilot";
  action_type = action_type;
  requested_by = "u";
  target_ref = "D1";
  target_revision = 1;
  evidence_refs = "E" ∷ [];
  granted_scopes = scopes;
  correlation_id = "c";
  payload = end;
}

abbrev reply : Fields
reply = field "site_id" (str "S") (
    field "processing_purpose" (str "pilot") (
      field "target_revision" (num (pos 1)) (field "evidence_refs" (arr (cons (str "E") nil)) end)))

evaluate-IsAuthorized_example : IsAuthorized (request "context.fact.get" ("gbos-read" ∷ []))
unfolding evaluate classify_request validate_result has_forbidden_field read_action_scopes
    internal_proposals human_required_actions forbidden_exact_actions forbidden_result_keys lookup
evaluate-IsAuthorized_example =
    evaluate-IsAuthorized guard (request "context.fact.get" ("gbos-read" ∷ [])) (aware 1)
      post_result (some reply) refl

evaluate-IsBound_example :
    (p : Fields) × (some reply ≡ some p)
    × IsBound guard (request "internal.fact.propose" ("gbos-propose" ∷ [])) p
unfolding evaluate classify_request validate_result has_forbidden_field read_action_scopes
    internal_proposals human_required_actions forbidden_exact_actions forbidden_result_keys lookup
evaluate-IsBound_example =
    evaluate-IsBound guard (request "internal.fact.propose" ("gbos-propose" ∷ [])) (aware 1)
      (some reply) refl

human_action-kept_example :
    (evaluate guard
      (request "payment.create" ("gbos-propose" ∷ "gbos-read" ∷ []))
      (aware 1)
      pre_tool
      none).outcome
    ≢ allow
unfolding human_required_actions
human_action-kept_example =
    human_action-kept guard (request "payment.create" ("gbos-propose" ∷ "gbos-read" ∷ [])) (aware 1)
      pre_tool none refl
