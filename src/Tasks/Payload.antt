-- ===== src/Tasks/Payload.antt =====
-- services/agent_runtime/models.py: LocalPilotTaskPayload, the closed, refs-only task input, its
-- reader, its printer and its checks. freeze_json and thaw_json copy a JSON value; values of the
-- model do not change, so a copy is the value itself.
use esan_gbos.Prelude.{
  ℕ, zero, suc, String, Bool, true, false, not, ◌&&◌, ◌||◌, Option, none, some, List, [], ◌∷◌,
  if◌then◌else◌, ◌==◌, string_eq, ref_eq, contains, is_unique, all,
}
use esan_gbos.Prelude.Int.{ℤ, pos, negsuc}
use esan_gbos.Prelude.Json.{
  Json, num, str, arr, obj, Items, nil, cons, Fields, end, field, get, keys,
}
use esan_gbos.Tasks.Errors.{validation_error, Result, or_raise}
use esan_gbos.Tasks.Documents.{
  as_str, as_obj, as_arr, texts, same_keys, is_empty, non_negative, require, ◌>>=◌, ◌>>◌,
}

pub record LocalPilotTaskPayload : Type 0 where
  pub evidence_refs : List String
  pub fact_version_refs : List (String × ℕ)
  pub subject_revision : ℕ
  pub requested_by : String
  pub decision_ref : String
  pub expected_action_type : String
  pub candidate_refs : List String
  pub schema_version : String

-- The regular expressions of models.py, as the re module runs them: _REFERENCE_PATTERN.fullmatch,
-- _DIRECT_PII_PATTERN.search, and the folding of a key in _contains_direct_pii.
pub record Patterns : Type 0 where
  pub is_reference : String → Bool
  pub has_direct_pii : String → Bool
  pub folded : String → String

abbrev pub root_keys : List String
root_keys = "schema_version" ∷ "evidence_refs" ∷ "fact_version_refs" ∷ "subject" ∷ "request" ∷ []

abbrev pub request_keys : List String
request_keys = "requested_by" ∷ "decision_ref" ∷ "expected_action_type" ∷ "candidate_refs" ∷ []

abbrev pub pii_keys : List String
pii_keys =
    "raw_context" ∷ "message_body" ∷ "message_text" ∷ "email" ∷ "phone" ∷ "telephone" ∷ "prompt"
    ∷ "response" ∷ "tokenized_context" ∷ []

abbrev pub schema : String
schema = "local-pilot-agent-task-v1"

-- isinstance(value, int). A bool passes that test too, and is then refused by the constructor with
-- the same exception.
abbrev pub as_int : Option Json → Option ℤ
as_int (some (num n)) = some n
as_int _ = none

-- to_mapping: the lists
abbrev pub items_of : List String → Items
items_of [] = nil
items_of (s ∷ ss) = cons (str s) (items_of ss)

abbrev pub fact_json : String × ℕ → Json
fact_json (fact_id, fact_version) =
    obj (field "fact_id" (str fact_id) (field "fact_version" (num (pos fact_version)) end))

abbrev pub fact_items : List (String × ℕ) → Items
fact_items [] = nil
fact_items (r ∷ rs) = cons (fact_json r) (fact_items rs)

-- LocalPilotTaskPayload.to_mapping
unfoldable pub to_mapping : LocalPilotTaskPayload → Json
to_mapping p = obj (
    field "schema_version" (str p.schema_version) (
      field "evidence_refs" (arr (items_of p.evidence_refs)) (
        field "fact_version_refs" (arr (fact_items p.fact_version_refs)) (
          field "subject" (obj (field "revision" (num (pos p.subject_revision)) end)) (
            field "request"
              (obj (
                field "requested_by" (str p.requested_by) (
                  field "decision_ref" (str p.decision_ref) (
                    field "expected_action_type" (str p.expected_action_type)
                      (field "candidate_refs" (arr (items_of p.candidate_refs)) end)))))
              end)))))

module _ (x : Patterns) where
  -- _contains_direct_pii
  unfoldable mutual
    pub has_pii : Json → Bool
    has_pii (obj fs) = has_pii_fields fs
    has_pii (arr xs) = has_pii_items xs
    has_pii (str s) = x.has_direct_pii s
    has_pii _ = false

    pub has_pii_fields : Fields → Bool
    has_pii_fields end = false
    has_pii_fields (field k v fs) =
        contains (x.folded k) pii_keys || (has_pii v || has_pii_fields fs)

    pub has_pii_items : Items → Bool
    has_pii_items nil = false
    has_pii_items (cons v xs) = has_pii v || has_pii_items xs

  -- _require_ref, as a test: whether it passes.
  abbrev pub is_ref : String → Bool
  is_ref s = x.is_reference s && not (x.has_direct_pii s)

  -- _require_unique_refs, as a test.
  abbrev pub are_unique_refs : Bool → List String → Bool
  are_unique_refs required values =
      not (required && is_empty values) && (is_unique values && all is_ref values)

  -- LocalPilotFactVersionRef.__post_init__
  abbrev pub fact_version_ref : String → ℤ → Option (String × ℕ)
  fact_version_ref fact_id (pos zero) = none
  fact_version_ref fact_id (pos (suc n)) = if is_ref fact_id then some (fact_id, suc n) else none
  fact_version_ref fact_id (negsuc _) = none

  -- The body of the loop over `fact_refs`.
  abbrev pub read_fact : Json → Option (String × ℕ)
  read_fact (obj fs) =
      if same_keys (keys fs) ("fact_id" ∷ "fact_version" ∷ [])
      then (elim (as_str (get "fact_id" fs)) [
        | none ↦ none
        | some fact_id ↦ elim (as_int (get "fact_version" fs)) [
          | none ↦ none
          | some fact_version ↦ fact_version_ref fact_id fact_version
        ]
      ])
      else none
  read_fact _ = none

  unfoldable pub read_facts : Items → Option (List (String × ℕ))
  read_facts nil = some []
  read_facts (cons v xs) = do r ← read_fact v; rs ← read_facts xs; some (r ∷ rs)

  -- LocalPilotTaskPayload.__post_init__, as a test.
  abbrev pub is_payload : LocalPilotTaskPayload → Bool
  is_payload p =
      p.schema_version == schema
      && (are_unique_refs true p.evidence_refs
          && (not (is_empty p.fact_version_refs)
              && (is_unique p.fact_version_refs
                  && (is_ref p.requested_by
                      && (is_ref p.decision_ref
                          && (is_ref p.expected_action_type
                              && are_unique_refs false p.candidate_refs))))))

  abbrev pub checked : LocalPilotTaskPayload → Option LocalPilotTaskPayload
  checked p = if is_payload p then some p else none

  -- LocalPilotTaskPayload.from_mapping; `none` is its one exception, ValidationError.
  -- `str(detached["schema_version"])` can be the expected text only for that text itself.
  unfoldable pub read_mapping : Json → Option LocalPilotTaskPayload
  read_mapping value = do
    detached ← as_obj (some value)
    require (same_keys (keys detached) root_keys)
    require (not (has_pii value))
    subject ← as_obj (get "subject" detached)
    require (same_keys (keys subject) ("revision" ∷ []))
    request ← as_obj (get "request" detached)
    require (same_keys (keys request) request_keys)
    evidence_refs ← texts (← as_arr (get "evidence_refs" detached))
    fact_version_refs ← read_facts (← as_arr (get "fact_version_refs" detached))
    candidate_refs ← texts (← as_arr (get "candidate_refs" request))
    requested_by ← as_str (get "requested_by" request)
    decision_ref ← as_str (get "decision_ref" request)
    expected_action_type ← as_str (get "expected_action_type" request)
    revision ← as_int (get "revision" subject)
    schema_version ← as_str (get "schema_version" detached)
    subject_revision ← non_negative revision
    checked (record {
      evidence_refs = evidence_refs;
      fact_version_refs = fact_version_refs;
      subject_revision = subject_revision;
      requested_by = requested_by;
      decision_ref = decision_ref;
      expected_action_type = expected_action_type;
      candidate_refs = candidate_refs;
      schema_version = schema_version;
    })

  unfoldable pub from_mapping : Json → Result LocalPilotTaskPayload
  from_mapping value = or_raise (read_mapping value) validation_error
