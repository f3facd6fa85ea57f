-- ===== src/Tasks/Closure.antt =====
-- services/agent_runtime/models.py: what LocalPilotTaskPayload.from_mapping accepts.
use esan_gbos.Prelude.{true, false, Option, some, ◌≡◌, string_eq, [], ◌∷◌}
use esan_gbos.Prelude.Json.{Json, str, arr, obj, Items, nil, cons, Fields, get, keys}
use esan_gbos.Tasks.Documents.{texts, same_keys}
use esan_gbos.Tasks.Payload.{
  LocalPilotTaskPayload, Patterns, root_keys, request_keys, has_pii, is_payload,
}

-- Every entry is an object with exactly the keys of a fact version.
abbrev pub AreClosedFacts : Items → Type 0
AreClosedFacts nil = Unit
AreClosedFacts (cons (obj fs) items) =
    (same_keys (keys fs) ("fact_id" ∷ "fact_version" ∷ []) ≡ true) × AreClosedFacts items
AreClosedFacts (cons _ items) = ⊥

-- A dict has the keys of the schema and no other, and so have the dicts in it; and a payload holds
-- what it says.
pub record IsClosed (fs : Fields) (p : LocalPilotTaskPayload) : Type 0 where
  pub root : same_keys (keys fs) root_keys ≡ true
  pub subject :
      (subject : Fields) × (get "subject" fs ≡ some (obj subject))
      × (same_keys (keys subject) ("revision" ∷ []) ≡ true)
  pub request :
      (request : Fields) × (get "request" fs ≡ some (obj request))
      × (same_keys (keys request) request_keys ≡ true)
      × (get "requested_by" request ≡ some (str p.requested_by))
      × (get "decision_ref" request ≡ some (str p.decision_ref))
      × (get "expected_action_type" request ≡ some (str p.expected_action_type))
  pub facts :
      (items : Items) × (get "fact_version_refs" fs ≡ some (arr items)) × AreClosedFacts items
  pub evidence :
      (items : Items) × (get "evidence_refs" fs ≡ some (arr items))
      × (texts items ≡ some p.evidence_refs)

module _ (x : Patterns) where
  record Closed (fs : Fields) (o : Option LocalPilotTaskPayload) : Type 0 where
    promise :
        (p : LocalPilotTaskPayload)
        → o ≡ some p
        → IsClosed fs p × (has_pii x (obj fs) ≡ false) × (is_payload x p ≡ true)
