-- ===== src/Tests/Drafting.antt =====
-- Drafts of services/agent_runtime: an execution of agents.py, an intent of proposals.py and its
-- delivery by materialization.py.
use esan_gbos.Prelude.{
  ℕ, true, false, none, some, [], ◌∷◌, refl, string_eq, pair_eq, ref_eq, nat_eq,
}
use esan_gbos.Prelude.Int.{pos}
use esan_gbos.Prelude.Json.{Fields, obj, end, field, str, num}
use esan_gbos.Tasks.Fencing.{aware}
use esan_gbos.Tasks.Drafts.{is_unsafe, has_forbidden_text, forbidden_text}
use esan_gbos.Agents.Inputs.{gave, sales, AgentInput}
use esan_gbos.Agents.Intents.{
  MaterializationEnvelope, MaterializationContext, create, MaterializationIntent, Formats,
}
use esan_gbos.Agents.Materializer.{
  materialize, shape, create_intent, review_case_intent, trusted_evidence_refs,
}
use esan_gbos.Agents.Reversible.{IsReversible, materialize-IsReversible}
use esan_gbos.Agents.Outbox.{MaterializationClaim, MaterializationWorker, Clock, World}
use esan_gbos.Agents.Orchestrator.{Texts, AgentOrchestrator}
use esan_gbos.Agents.Provider.{local_provider}
use esan_gbos.Tests.Queue.{ext}

abbrev formats : Formats
formats = record {
  strip = λ s. s;
  canonical_json = λ j. "{}";
  sha256 = λ s. "digest";
  is_sha256 = λ s. true;
  is_integer = λ s n. false;
}

abbrev envelope : MaterializationEnvelope
envelope = record {
  proposal_id = "P";
  task_id = "T";
  processing_purpose = "sales_follow_up";
  origin = "AI";
  review_status = "AI Draft";
  action_type = "internal.review_case.propose";
  subject_type = "CRM Deal";
  subject_ref = "D1";
  subject_revision = 2;
  evidence_refs = "E" ∷ [];
  model_name = none;
  model_version = none;
  policy_version = some "action-guard-v1";
  proposal = field "payload" (obj (field "title" (str "Compare") end)) end;
}

abbrev snapshot : Fields
snapshot =
    field "doctype" (str "CRM Deal") (field "name" (str "D1") (field "revision" (num (pos 2)) end))

abbrev context : MaterializationContext
context = record {
  team = "sales";
  assigned_reviewer = some "r";
  subject_snapshot = some snapshot;
  subject_payload_digest = some "digest";
}

abbrev values : Fields
values = field "title" (str "Compare") (
    field "team" (str "sales") (
      field "assigned_reviewer" (str "r") (
        field "subject_doctype" (str "CRM Deal") (
          field "subject_name" (str "D1") (
            field "subject_revision" (num (pos 2)) (
              field "subject_payload_sha256" (str "digest") (
                field "subject_snapshot" (str "{}") (
                  field "evidence_refs" (str "{}") (
                    field "policy_version" (str "action-guard-v1") (
                      field "case_payload_sha256" (str "digest") (
                        field "origin" (str "AI") (
                          field "origin_reference" (str "P") (
                            field "business_status" (str "Pending")
                              (field "review_status" (str "AI Draft") end))))))))))))))

abbrev intent : MaterializationIntent
intent = record { operation = create; doctype = "GBOS Review Case"; values = values }

materialize-IsReversible_example : IsReversible formats ext envelope (some context) intent
unfolding materialize shape create_intent review_case_intent trusted_evidence_refs is_unsafe
    has_forbidden_text forbidden_text
materialize-IsReversible_example =
    materialize-IsReversible formats ext envelope (some context) intent refl

abbrev claim : MaterializationClaim
claim = record {
  materialization_id = "M";
  proposal_id = "P";
  site_id = "S";
  attempt = 1;
  max_attempts = 5;
  lease_owner = "m";
  lease_expires_at = aware 50;
  envelope = envelope;
}

-- An outbox that counts the attempts left, over one claim.
abbrev deliverer : MaterializationWorker ℕ
deliverer = record {
  repository = record {
    claim = λ site worker now lease s. (gave (some claim), s);
    heartbeat = λ site id worker attempt now lease s. (gave tt, s);
    acknowledge = λ site id worker attempt now receipt s. (gave tt, 0);
    fail = λ site id worker attempt now retry_at code s. (gave none, s);
  };
  client = λ before application. gave (record {
    doctype = application.intent.doctype;
    name = "GBOS-RC-1";
    revision = 0;
    request_id = application.request_id;
    request_digest = application.request_digest;
  });
  resolve = λ request. gave (some context);
  worker_id = "m";
  lease_duration = pos 30;
  retry_delay = 30;
}

abbrev clock : Clock
clock = record {
  claimed_at = aware 20;
  begun_at = aware 21;
  shaped_at = aware 22;
  acknowledged_at = aware 23;
  failed_at = aware 24;
  retry_from = aware 24;
}

abbrev world : World ℕ
world = record { store = 5; applied = [] }

abbrev texts : Texts
texts = record {
  chars = λ s. 4;
  json_chars = λ j. 900;
  json_sha256 = λ j. "d";
  proposal_id = λ j. "action-proposal-1";
  isoformat = λ d. "2026-01-01T00:00:00Z";
}

abbrev orchestrator : AgentOrchestrator
orchestrator = record {
  provider = local_provider ext;
  known_evidence_refs = "E" ∷ [];
  known_fact_refs = ("F", 2) ∷ [];
  known_subject_refs = ("CRM Deal", "D1") ∷ [];
}

abbrev input : AgentInput
input = record {
  task_id = "T";
  site_id = "S";
  processing_purpose = "sales_follow_up";
  agent_kind = sales;
  requested_by = "u";
  subject_type = "CRM Deal";
  subject_ref = "D1";
  subject_revision = 3;
  evidence_refs = "E" ∷ [];
  fact_version_refs = ("F", 2) ∷ [];
  decision_ref = "R";
  correlation_id = "r";
  raw_context = "text";
  expected_action_type = "internal.work_item.propose";
  candidate_refs = [];
  requested_tools = [];
}
