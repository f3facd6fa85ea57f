-- ===== src/Kingdee/Policy.antt =====
-- services/kingdee_adapter/policy.py: what FrozenKingdeePolicy makes of a tool name and a request.
-- `none` is RequestRejected, the one exception of these methods.
use esan_gbos.Prelude.{
  ℕ, String, Bool, true, false, not, ◌&&◌, ◌||◌, Option, none, some, List, [], ◌∷◌, if◌then◌else◌,
  ◌==◌, string_eq, leb, contains, any,
}
use esan_gbos.Prelude.Int.{pos}
use esan_gbos.Prelude.Dict.{lookup}
use esan_gbos.Prelude.Json.{Json, num, Fields, get, keys}
use esan_gbos.Tasks.Documents.{as_str, same_keys, require, ◌>>=◌, ◌>>◌}
use esan_gbos.Kingdee.Models.{AuthContext, ValidatedRequest, QueryPlan}
use esan_gbos.Kingdee.Contracts.{FrozenKingdeePolicy, has_key}

-- The regular expressions, `tokens` with str.lower before and without the empty parts, and the
-- first 16 digits of a SHA-256.
pub record Patterns : Type 0 where
  pub is_request_id : String → Bool
  pub is_site_id : String → Bool
  pub is_account_set : String → Bool
  pub is_purpose : String → Bool
  pub tokens : String → List String
  pub fingerprint : String → String

-- _REQUEST_KEYS
unfoldable pub request_keys : List String
request_keys =
    "request_id" ∷ "site_id" ∷ "account_set_ref" ∷ "processing_purpose" ∷ "logical_object" ∷ "limit"
    ∷ "offset" ∷ "timeout_ms" ∷ []

abbrev pub max_timeout_ms : ℕ
max_timeout_ms = 30000

-- _match
unfoldable pub match_text : Option Json → (String → Bool) → Option String
match_text value pattern = do text ← as_str value; require (pattern text); some text

-- _bounded_int; a bool is refused, and so is a negative number, since no minimum is below 0.
unfoldable pub bounded_int : Option Json → ℕ → ℕ → Option ℕ
bounded_int (some (num (pos n))) minimum maximum =
    if leb minimum n && leb n maximum then some n else none
bounded_int _ minimum maximum = none

module _ (x : Patterns) (policy : FrozenKingdeePolicy) where
  -- _reject_mutation_shape, as a test: whether it raises.
  abbrev pub is_mutation_shaped : String → Bool
  is_mutation_shaped tool_name =
      tool_name == ""
      || any (λ token. contains token policy.forbidden_operation_tokens) (x.tokens tool_name)

  -- plan_for: its last part, for metadata.get and for the other tools
  unfoldable pub plan_from : Bool → QueryPlan → String → String → Option QueryPlan
  plan_from true base tool_name logical_object = some (record base { tool_name = tool_name })
  plan_from false base tool_name logical_object = do
    expected ← lookup tool_name policy.tool_to_object
    require (expected == logical_object)
    some base

  unfoldable pub plan_for : String → String → Option QueryPlan
  plan_for tool_name logical_object = do
    require (not (is_mutation_shaped tool_name))
    base ← lookup logical_object policy.object_plans
    plan_from (tool_name == "metadata.get") base tool_name logical_object

  unfoldable pub validate_request : Fields → AuthContext → Option ValidatedRequest
  validate_request request auth = do
    require (same_keys (keys request) request_keys)
    require auth.authenticated
    require (contains "kingdee-read" auth.granted_scopes)
    request_id ← match_text (get "request_id" request) x.is_request_id
    site_id ← match_text (get "site_id" request) x.is_site_id
    account_set_ref ← match_text (get "account_set_ref" request) x.is_account_set
    processing_purpose ← match_text (get "processing_purpose" request) x.is_purpose
    logical_object ← as_str (get "logical_object" request)
    require (has_key logical_object policy.object_plans)
    limit ← bounded_int (get "limit" request) 1 policy.max_rows
    offset ← bounded_int (get "offset" request) 0 1000000
    timeout_ms ← bounded_int (get "timeout_ms" request) 1 max_timeout_ms
    some (record {
      request_id = request_id;
      site_id = site_id;
      account_set_ref = account_set_ref;
      processing_purpose = processing_purpose;
      logical_object = logical_object;
      limit = limit;
      offset = offset;
      timeout_ms = timeout_ms;
    })
