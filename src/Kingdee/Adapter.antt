-- ===== src/Kingdee/Adapter.antt =====
-- services/kingdee_adapter/adapter.py: KingdeeAdapter.invoke. The transport is a parameter; its
-- calls and the audit events are kept in the order they happen.
use esan_gbos.Prelude.{
  String, Bool, true, false, not, ◌&&◌, Option, none, some, List, [], ◌∷◌, ◌++◌, if◌then◌else◌,
  ◌==◌, string_eq, nat_eq, contains, length,
}
use esan_gbos.Prelude.Json.{Json, str, arr, obj, Items, nil, cons, Fields, end, field}
use esan_gbos.Tasks.Documents.{◌>>=◌}
use esan_gbos.Kingdee.Models.{
  AdapterStatus, VerificationStatus, AuthContext, ValidatedRequest, QueryPlan, TransportResult,
  AdapterResponse, AuditEvent,
}
use esan_gbos.Kingdee.Contracts.{FrozenKingdeePolicy}
use esan_gbos.Kingdee.Policy.{Patterns, plan_for, validate_request}
use esan_gbos.Kingdee.Validation.{validate_transport_result}

-- transport.py: Transport. An answer of `none` is an exception that `execute` raises.
pub record Transport : Type 0 where
  pub synthetic : Bool
  pub execute : QueryPlan → ValidatedRequest → Option TransportResult

pub record Log : Type 0 where
  pub events : List AuditEvent
  pub calls : List (QueryPlan × ValidatedRequest)

pub data Outcome : Type 0 where
  answered : AdapterResponse → Outcome
  request_rejected transport_raised value_error_raised : Outcome

abbrev pub verified_if : Bool → VerificationStatus
verified_if true = VerificationStatus.verified
verified_if false = VerificationStatus.unavailable

abbrev pub status_if : Bool → AdapterStatus
status_if true = AdapterStatus.available
status_if false = AdapterStatus.unavailable

-- `status.value`
abbrev pub status_value : AdapterStatus → String
status_value AdapterStatus.available = "available"
status_value AdapterStatus.unavailable = "unavailable"

abbrev pub field_row : Bool → String → String → String → Json
field_row synthetic name source data_type = obj (
    field "logical_name" (str name) (
      field "source_field" (str source) (
        field "data_type" (str data_type) (
          field "verification_status"
            (str (if synthetic then "synthetic_only" else "live_verified")) end))))

-- The list of _response over `zip(..., strict=True)`; `none` is its ValueError.
unfoldable pub field_rows : Bool → List String → List String → List String → Option Items
field_rows synthetic [] [] [] = some nil
field_rows synthetic (name ∷ names) (source ∷ sources) (data_type ∷ types) = do
  rest ← field_rows synthetic names sources types
  some (cons (field_row synthetic name source data_type) rest)
field_rows synthetic _ _ _ = none

abbrev pub metadata_fields : QueryPlan → Items → Fields
metadata_fields plan items =
    field "logical_object" (str plan.logical_object)
      (field "source_form" (str plan.source_form) (field "fields" (arr items) end))

unfoldable pub metadata_payload : Bool → QueryPlan → TransportResult → Option Fields
metadata_payload synthetic plan result =
    let described =
      field_rows synthetic plan.fields plan.source_fields plan.field_types >>= λ items.
      some (metadata_fields plan items) in
    if not result.available_status
    then some end
    else if plan.tool_name == "metadata.get"
    then described
    else some (
        field "source"
          (str (if synthetic then "gate5_deterministic_synthetic" else "kingdee_live_read")) end)

-- _response, with its metadata
unfoldable pub response_with :
    Bool → QueryPlan → ValidatedRequest → TransportResult → Fields → AdapterResponse
response_with synthetic plan request result metadata = record {
  status = status_if result.available_status;
  request_id = request.request_id;
  site_id = request.site_id;
  logical_object = request.logical_object;
  tool_name = plan.tool_name;
  synthetic = synthetic;
  rows = if result.available_status then result.rows else [];
  metadata = metadata;
  page = record {
    limit = request.limit;
    offset = request.offset;
    returned_rows = length (if result.available_status then result.rows else []);
    has_more =
        result.available_status
        && (not (plan.tool_name == "metadata.get")
            && length (if result.available_status then result.rows else []) == request.limit);
  };
  verification = record {
    startup = verified_if result.startup_available;
    authentication = VerificationStatus.verified;
    metadata = verified_if result.metadata_available;
    business =
        if plan.tool_name == "metadata.get"
        then VerificationStatus.not_attempted
        else verified_if result.available_status;
  };
  controls = record {
    network_calls = result.network_calls;
    writer_tools_discovered = 0;
    mutation_attempts = 0;
    synthetic_fallbacks = 0;
  };
  reason_code = result.reason_code;
}

-- _response
unfoldable pub response_of :
    Bool → QueryPlan → ValidatedRequest → TransportResult → Option AdapterResponse
response_of synthetic plan request result = do
  metadata ← metadata_payload synthetic plan result
  some (response_with synthetic plan request result metadata)

-- invoke: the response to a result of the transport, or a ValueError
unfoldable pub answer_of :
    Bool → QueryPlan → ValidatedRequest → TransportResult → Option AdapterResponse
answer_of synthetic plan request result = do
  settled ← validate_transport_result synthetic plan request result
  response_of synthetic plan request settled

module _ (x : Patterns) (policy : FrozenKingdeePolicy) (transport : Transport) where
  -- _record_rejection
  abbrev pub rejection_event : String → AuditEvent
  rejection_event tool_name = record {
    event_type = "kingdee_read_rejected";
    request_id = "rejected-request";
    site_id = "unknown";
    account_set_fingerprint = "sha256:unavailable";
    processing_purpose = "unknown";
    tool_name = if contains tool_name policy.tools then tool_name else "rejected-tool";
    logical_object = "unknown";
    status = "denied";
    reason_code = some "request_rejected";
    returned_rows = 0;
    synthetic = transport.synthetic;
    network_calls = 0;
    writer_tools_discovered = 0;
    mutation_attempts = 0;
  }

  abbrev pub read_event : String → ValidatedRequest → AdapterResponse → AuditEvent
  read_event tool_name request response = record {
    event_type = "kingdee_read";
    request_id = request.request_id;
    site_id = request.site_id;
    account_set_fingerprint = x.fingerprint request.account_set_ref;
    processing_purpose = request.processing_purpose;
    tool_name = tool_name;
    logical_object = request.logical_object;
    status = status_value response.status;
    reason_code = response.reason_code;
    returned_rows = length response.rows;
    synthetic = response.synthetic;
    network_calls = response.controls.network_calls;
    writer_tools_discovered = 0;
    mutation_attempts = 0;
  }

  -- invoke: the request and its plan, or RequestRejected
  unfoldable pub admitted : String → Fields → AuthContext → Option (ValidatedRequest × QueryPlan)
  admitted tool_name request auth = do
    validated ← validate_request x policy request auth
    plan ← plan_for x policy tool_name validated.logical_object
    some (validated, plan)

  -- invoke: its end, with the response or after a ValueError
  unfoldable pub conclude : String → ValidatedRequest → Option AdapterResponse → Log → Outcome × Log
  conclude tool_name validated none log = (value_error_raised, log)
  conclude tool_name validated (some response) log = (
    answered response,
    record log { events = log.events ++ read_event tool_name validated response ∷ [] },
  )

  -- invoke: what follows the transport's answer
  unfoldable pub settle :
      String → ValidatedRequest → QueryPlan → Option TransportResult → Log → Outcome × Log
  settle tool_name validated plan none log = (transport_raised, log)
  settle tool_name validated plan (some result) log =
      conclude tool_name validated (answer_of transport.synthetic plan validated result) log

  unfoldable pub respond : String → Option (ValidatedRequest × QueryPlan) → Log → Outcome × Log
  respond tool_name none log =
      (request_rejected, record log { events = log.events ++ rejection_event tool_name ∷ [] })
  respond tool_name (some (validated, plan)) log =
      settle tool_name validated plan (transport.execute plan validated)
        (record log { calls = log.calls ++ (plan, validated) ∷ [] })

  unfoldable pub invoke : String → Fields → AuthContext → Log → Outcome × Log
  invoke tool_name request auth log = respond tool_name (admitted tool_name request auth) log
