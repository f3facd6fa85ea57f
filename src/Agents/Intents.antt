-- ===== src/Agents/Intents.antt =====
-- services/agent_runtime/proposals.py: the envelopes and intents of TrustedMaterializer,
-- and its submissions.
use esan_gbos.Prelude.{
  ℕ, String, Bool, true, false, not, ◌&&◌, Option, some, List, [], ◌∷◌, if◌then◌else◌, ◌==◌,
  string_eq, nat_eq, contains,
}
use esan_gbos.Prelude.Json.{
  Json, boolean, str, arr, obj, Items, nil, cons, Fields, end, field, get, keys,
}
use esan_gbos.Tasks.Errors.{validation_error}
use esan_gbos.Tasks.Documents.{same_keys}
use esan_gbos.Agents.Inputs.{Try, threw, gave, queue, fault, ◌>>=◌, ◌>>◌, throw_if, or_throw}

pub record MaterializationEnvelope : Type 0 where
  pub proposal_id : String
  pub task_id : String
  pub processing_purpose : String
  pub origin : String
  pub review_status : String
  pub action_type : String
  pub subject_type : String
  pub subject_ref : String
  pub subject_revision : ℕ
  pub evidence_refs : List String
  pub model_name : Option String
  pub model_version : Option String
  pub policy_version : Option String
  pub proposal : Fields

pub record MaterializationContext : Type 0 where
  pub team : String
  pub assigned_reviewer : Option String
  pub subject_snapshot : Option Fields
  pub subject_payload_digest : Option String

pub data Operation : Type 0 where
  create submit : Operation

pub record MaterializationIntent : Type 0 where
  pub operation : Operation
  pub doctype : String
  pub values : Fields

-- What the standard library computes here: str.strip, canonical JSON text and its SHA-256, the test
-- for 64 hexadecimal digits, and whether the text of a float stands for an integer.
pub record Formats : Type 0 where
  pub strip : String → String
  pub canonical_json : Json → String
  pub sha256 : String → String
  pub is_sha256 : String → Bool
  pub is_integer : String → ℕ → Bool

abbrev pub invalid : {A : Type 0} → Try A
invalid = threw (queue validation_error)

abbrev pub invalid_if : Bool → Try (Unit {0})
invalid_if b = throw_if b (queue validation_error)

abbrev pub target_doctypes : List String
target_doctypes = "GBOS Work Item" ∷ "GBOS Review Case" ∷ []

-- `payload["target_doctype"] not in {...}`; a list or a dict is unhashable, a TypeError.
abbrev pub target_of : Option Json → Try String
target_of (some (str s)) = if contains s target_doctypes then gave s else invalid
target_of (some (arr _)) = threw fault
target_of (some (obj _)) = threw fault
target_of _ = invalid

abbrev pub is_str : Option Json → String → Bool
is_str (some (str s)) wanted = s == wanted
is_str _ wanted = false

-- `value is False`
abbrev pub is_false : Option Json → Bool
is_false (some (boolean false)) = true
is_false _ = false

-- _trusted_evidence_refs: the list of rows of an observation
abbrev pub evidence_rows : List String → Items
evidence_rows [] = nil
evidence_rows (r ∷ rs) =
    cons (obj (field "evidence_ref" (str r) (field "locator_ref" (str r) end))) (evidence_rows rs)

-- `document.get("payload")`, as a dict
abbrev pub payload_of : Option Json → Try Fields
payload_of (some (obj fs)) = gave fs
payload_of _ = invalid

-- The first branch of materialize.
unfoldable pub submit_intent : Fields → Try MaterializationIntent
submit_intent payload = do
  invalid_if (
      not (
        same_keys (keys payload)
          ("target_doctype" ∷ "target_ref" ∷ "from_review_status" ∷ "to_review_status" ∷ [])))
  doctype ← target_of (get "target_doctype" payload)
  invalid_if (
      not (
        is_str (get "from_review_status" payload) "AI Draft"
        && is_str (get "to_review_status" payload) "Pending"))
  name ← or_throw (get "target_ref" payload) fault
  gave (record {
    operation = submit;
    doctype = doctype;
    values =
        field "name" name (field "origin" (str "AI") (field "review_status" (str "Pending") end));
  })
