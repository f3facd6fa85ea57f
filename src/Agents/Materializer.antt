-- ===== src/Agents/Materializer.antt =====
-- services/agent_runtime/proposals.py: TrustedMaterializer, which shapes internal AI drafts.
use Prim.Native.String.{count}
use esan_gbos.Prelude.{
  ℕ, String, Bool, false, not, ◌&&◌, ◌||◌, Option, none, some, List, [], ◌∷◌, if◌then◌else◌, ◌==◌,
  string_eq, nat_eq, ltb, contains, is_unique,
}
use esan_gbos.Prelude.Int.{pos, int_beq}
use esan_gbos.Prelude.Json.{
  Json, boolean, num, float, str, arr, obj, Fields, end, field, get, int_of,
}
use esan_gbos.Tasks.Errors.{validation_error}
use esan_gbos.Tasks.Proposals.{Externals}
use esan_gbos.Tasks.Documents.{is_empty, as_str}
use esan_gbos.Tasks.Payload.{items_of}
use esan_gbos.Tasks.Drafts.{allowed_action_types, is_unsafe}
use esan_gbos.Agents.Inputs.{Try, gave, queue, ◌>>=◌, ◌>>◌, or_throw}
use esan_gbos.Agents.Intents.{
  MaterializationEnvelope, MaterializationContext, create, MaterializationIntent, Formats, invalid,
  invalid_if, is_str, is_false, evidence_rows, payload_of, submit_intent,
}

module _ (f : Formats) where
  -- _require_text
  abbrev pub require_text : Option String → ℕ → Try String
  require_text none maximum = invalid
  require_text (some value) maximum =
      if f.strip value == "" || ltb maximum (count (f.strip value))
      then invalid
      else gave (f.strip value)

  -- _trusted_evidence_refs
  abbrev pub require_texts : List String → ℕ → Try (List String)
  require_texts [] maximum = gave []
  require_texts (value ∷ values) maximum = do
    text ← require_text (some value) maximum
    texts ← require_texts values maximum
    gave (text ∷ texts)

  unfoldable pub trusted_evidence_refs : List String → Try (List String)
  trusted_evidence_refs values = do
    invalid_if (is_empty values || not (is_unique values))
    require_texts values 500

  -- _frappe_payload_digest
  abbrev pub frappe_payload_digest : Fields → String
  frappe_payload_digest value = f.sha256 (f.canonical_json (obj value))

  -- `snapshot.get("revision") == revision`; a bool is an int, and a float may equal one.
  abbrev pub is_revision : Option Json → ℕ → Bool
  is_revision (some (num n)) revision = int_beq n (pos revision)
  is_revision (some (boolean b)) revision = int_beq (int_of b) (pos revision)
  is_revision (some (float text)) revision = f.is_integer text revision
  is_revision _ revision = false

  -- MaterializationContext.__post_init__
  abbrev pub check_snapshot : Option Fields → Option String → Try (Unit {0})
  check_snapshot none none = gave tt
  check_snapshot none (some _) = invalid
  check_snapshot (some snapshot) none = invalid
  check_snapshot (some snapshot) (some digest) = do
    invalid_if (not (f.is_sha256 digest))
    invalid_if (not (frappe_payload_digest snapshot == digest))

  abbrev pub check_reviewer : Option String → Try (Unit {0})
  check_reviewer none = gave tt
  check_reviewer (some reviewer) = require_text (some reviewer) 256 >>= λ _. gave tt

  unfoldable pub check_context : MaterializationContext → Try (Unit {0})
  check_context context = do
    _ ← require_text (some context.team) 140
    check_reviewer context.assigned_reviewer
    check_snapshot context.subject_snapshot context.subject_payload_digest

  -- The branch for internal.work_item.propose.
  unfoldable pub work_item_intent :
      MaterializationEnvelope → String → String → String → Try MaterializationIntent
  work_item_intent envelope team proposal_id title = do
    subject_type ← require_text (some envelope.subject_type) 140
    subject_ref ← require_text (some envelope.subject_ref) 256
    gave (record {
      operation = create;
      doctype = "GBOS Work Item";
      values = field "title" (str title) (
          field "team" (str team) (
            field "reference_doctype" (str subject_type) (
              field "reference_name" (str subject_ref) (
                field "origin" (str "AI") (
                  field "origin_reference" (str proposal_id) (
                    field "business_status" (str "Open")
                      (field "review_status" (str "AI Draft") end)))))));
    })

  -- The branch for internal.ai_draft.propose.
  unfoldable pub observation_intent :
      MaterializationEnvelope → Fields → String → String → String → Try MaterializationIntent
  observation_intent envelope payload team proposal_id title = do
    invalid_if (not (is_false (get "is_official_metric" payload)))
    summary ← require_text (as_str (get "summary" payload)) 2000
    model_name ← require_text envelope.model_name 160
    model_version ← require_text envelope.model_version 160
    invalid_if (not (model_name == "deepseek-v4-flash"))
    evidence_refs ← trusted_evidence_refs envelope.evidence_refs
    gave (record {
      operation = create;
      doctype = "GBOS Informal Observation";
      values = field "subject" (str title) (
          field "summary_zh" (str summary) (
            field "team" (str team) (
              field "evidence_refs" (arr (evidence_rows evidence_refs)) (
                field "model_name" (str model_name) (
                  field "model_version" (str model_version) (
                    field "is_official_metric" (boolean false) (
                      field "origin" (str "AI") (
                        field "origin_reference" (str proposal_id)
                          (field "review_status" (str "AI Draft") end)))))))));
    })

  -- The dict `case_payload`, with two values given.
  abbrev pub case_payload :
      String
      → String
      → String
      → String
      → String
      → ℕ
      → String
      → Json
      → Json
      → String
      → Fields
      → Fields
  case_payload title team reviewer subject_type subject_ref revision digest snapshot evidence policy
        rest =
      field "title" (str title) (
        field "team" (str team) (
          field "assigned_reviewer" (str reviewer) (
            field "subject_doctype" (str subject_type) (
              field "subject_name" (str subject_ref) (
                field "subject_revision" (num (pos revision)) (
                  field "subject_payload_sha256" (str digest) (
                    field "subject_snapshot" snapshot (
                      field "evidence_refs" evidence
                        (field "policy_version" (str policy) rest)))))))))

  -- The last branch, for internal.review_case.propose.
  unfoldable pub review_case_intent :
      MaterializationEnvelope
      → MaterializationContext
      → String
      → String
      → String
      → Try MaterializationIntent
  review_case_intent envelope context team proposal_id title = do
    assigned_reviewer ← require_text context.assigned_reviewer 256
    subject_type ← require_text (some envelope.subject_type) 140
    subject_ref ← require_text (some envelope.subject_ref) 256
    invalid_if (envelope.subject_revision == 0)
    snapshot ← or_throw context.subject_snapshot (queue validation_error)
    invalid_if (
        not (
          is_str (get "doctype" snapshot) subject_type
          && (is_str (get "name" snapshot) subject_ref
              && is_revision (get "revision" snapshot) envelope.subject_revision)))
    digest ← or_throw context.subject_payload_digest (queue validation_error)
    invalid_if (not (frappe_payload_digest snapshot == digest))
    evidence_refs ← trusted_evidence_refs envelope.evidence_refs
    policy_version ← require_text envelope.policy_version 140
    let payload =
        case_payload title team assigned_reviewer subject_type subject_ref envelope.subject_revision
          digest (obj snapshot) (arr (items_of evidence_refs)) policy_version end
    gave (record {
      operation = create;
      doctype = "GBOS Review Case";
      values =
          case_payload title team assigned_reviewer subject_type subject_ref
            envelope.subject_revision digest (str (f.canonical_json (obj snapshot)))
            (str (f.canonical_json (arr (items_of evidence_refs)))) policy_version
            (field "case_payload_sha256" (str (frappe_payload_digest payload)) (
              field "origin" (str "AI") (
                field "origin_reference" (str proposal_id) (
                  field "business_status" (str "Pending")
                    (field "review_status" (str "AI Draft") end)))));
    })

  -- The branches that create a record.
  unfoldable pub create_intent :
      MaterializationEnvelope → MaterializationContext → Fields → Try MaterializationIntent
  create_intent envelope context payload = do
    team ← require_text (some context.team) 140
    proposal_id ← require_text (some envelope.proposal_id) 256
    title ← require_text (as_str (get "title" payload)) 140
    if envelope.action_type == "internal.work_item.propose"
        then work_item_intent envelope team proposal_id title
        else if envelope.action_type == "internal.ai_draft.propose"
        then observation_intent envelope payload team proposal_id title
        else review_case_intent envelope context team proposal_id title

  -- TrustedMaterializer.materialize
  unfoldable pub shape :
      MaterializationEnvelope → Option MaterializationContext → Fields → Try MaterializationIntent
  shape envelope context payload =
      if envelope.action_type == "internal.work_item.transition.propose"
      then submit_intent payload
      else or_throw context (queue validation_error) >>= λ c. create_intent envelope c payload

  unfoldable pub materialize :
      Externals
      → MaterializationEnvelope
      → Option MaterializationContext
      → Try MaterializationIntent
  materialize x envelope context = do
    invalid_if (not (envelope.origin == "AI" && envelope.review_status == "AI Draft"))
    invalid_if (not (contains envelope.action_type allowed_action_types))
    invalid_if (is_unsafe x (obj envelope.proposal))
    payload ← payload_of (get "payload" envelope.proposal)
    shape envelope context payload
