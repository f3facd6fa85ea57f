-- ===== src/Tests/Kingdee.antt =====
-- Requests to the Kingdee adapter of services/kingdee_adapter, under contracts like those of
-- contracts/gate2, with one field for each object.
use esan_gbos.Prelude.{String, true, false, none, some, List, [], ◌∷◌, ◌≡◌, refl, string_eq, map}
use esan_gbos.Prelude.Int.{pos}
use esan_gbos.Prelude.Dict.{Dict, lookup, insert, values}
use esan_gbos.Prelude.Json.{Json, boolean, Items, Fields, obj, end, field, str, arr, num, nil, cons}
use esan_gbos.Kingdee.Models.{AuthContext, ValidatedRequest, QueryPlan}
use esan_gbos.Kingdee.Contracts.{
  FrozenKingdeePolicy, load, tool_mapping, read_tools, dictionary_plans, read_plans, read_plan,
  inverse, read_columns, none_mutates, required_forbidden, plan_of,
}
use esan_gbos.Kingdee.Policy.{
  Patterns, request_keys, match_text, bounded_int, validate_request, plan_from, plan_for,
}
use esan_gbos.Kingdee.Adapter.{Transport, Log, admitted, invoke}
use esan_gbos.Kingdee.Frozen.{load-IsFrozen}
use esan_gbos.Kingdee.Requests.{IsValidated, validate_request-IsValidated}
use esan_gbos.Kingdee.Plans.{IsReadOnly, plan_for-IsReadOnly}
use esan_gbos.Kingdee.Rows.{Invoked, invoke-Invoked}
use esan_gbos.Kingdee.Live.{
  LiveDestination, LiveEntryGates, LiveBackend, returned_result, live_transport,
}
use esan_gbos.Kingdee.Gates.{Gated, invoke-Gated}

abbrev table : Dict String String
table =
    ("kingdee.material.get", "material")
    ∷ ("kingdee.customer.get", "customer")
    ∷ ("kingdee.supplier.get", "supplier")
    ∷ ("kingdee.sales_order.get", "sales_order")
    ∷ ("kingdee.purchase_order.get", "purchase_order")
    ∷ ("kingdee.inventory.get", "inventory")
    ∷ ("kingdee.receivable.get", "receivable")
    ∷ []

abbrev tool_item : String → String → Json
tool_item name logical_object = obj (
    field "name" (str name)
      (field "logical_object" (str logical_object) (field "mutates" (boolean false) end)))

abbrev tool_items : Dict String String → Items
tool_items [] = nil
tool_items ((name, logical_object) ∷ d) = cons (tool_item name logical_object) (tool_items d)

abbrev candidate : String → Json
candidate value =
    obj
      (field "value" (str value) (field "verification_status" (str "gate5_metadata_required") end))

abbrev object_item : String → Json
object_item logical_object = obj (
    field "logical_object" (str logical_object) (
      field "candidate_form" (candidate "BD") (
        field "fields"
          (arr (
            cons
              (obj (
                field "logical_name" (str "number") (
                  field "data_type" (str "string")
                    (field "candidate_field" (candidate "FNumber") end))))
              nil))
          end)))

abbrev object_items : Dict String String → Items
object_items [] = nil
object_items ((_, logical_object) ∷ d) = cons (object_item logical_object) (object_items d)

abbrev text_items : List String → Items
text_items [] = nil
text_items (s ∷ ss) = cons (str s) (text_items ss)

abbrev allowlist : Fields
allowlist = field "allowlist_version" (str "0.1.0") (
    field "max_rows" (num (pos 50)) (
      field "tools" (arr (tool_items table))
        (field "forbidden_operation_tokens" (arr (text_items required_forbidden)) end)))

abbrev manifest : Fields
manifest = field "tools" (arr (tool_items table)) end

abbrev dictionary : Fields
dictionary =
    field "dictionary_version" (str "0.1.0") (field "objects" (arr (object_items table)) end)

abbrev plan : String → String → QueryPlan
plan tool logical_object =
    plan_of tool logical_object "BD"
      (record { logical_name = "number"; source_field = "FNumber"; data_type = "string" } ∷ [])

abbrev policy : FrozenKingdeePolicy
policy = record {
  allowlist_version = "0.1.0";
  dictionary_version = "0.1.0";
  max_rows = 50;
  read_tools = map (λ row. row.0) table;
  tools = "metadata.get" ∷ map (λ row. row.0) table;
  forbidden_operation_tokens = required_forbidden;
  tool_to_object = table;
  object_plans = map (λ row. (row.1, plan row.0 row.1)) table;
}

loaded : load allowlist manifest dictionary ≡ some policy
unfolding load tool_mapping read_tools dictionary_plans read_plans read_plan inverse read_columns
    none_mutates required_forbidden lookup insert values
loaded = refl

abbrev patterns : Patterns
patterns = record {
  is_request_id = λ s. true;
  is_site_id = λ s. true;
  is_account_set = λ s. true;
  is_purpose = λ s. true;
  tokens = λ s. s ∷ [];
  fingerprint = λ s. "sha256";
}

abbrev auth : AuthContext
auth = record { authenticated = true; granted_scopes = "kingdee-read" ∷ [] }

abbrev request : Fields
request = field "request_id" (str "request-1") (
    field "site_id" (str "S") (
      field "account_set_ref" (str "A") (
        field "processing_purpose" (str "pilot") (
          field "logical_object" (str "material") (
            field "limit" (num (pos 50))
              (field "offset" (num (pos 0)) (field "timeout_ms" (num (pos 30000)) end)))))))

abbrev accepted : ValidatedRequest
accepted = record {
  request_id = "request-1";
  site_id = "S";
  account_set_ref = "A";
  processing_purpose = "pilot";
  logical_object = "material";
  limit = 50;
  offset = 0;
  timeout_ms = 30000;
}

validate_request-IsValidated_example : IsValidated patterns policy request auth accepted
unfolding validate_request match_text bounded_int request_keys lookup
validate_request-IsValidated_example =
    validate_request-IsValidated patterns policy request auth accepted refl

plan_for-IsReadOnly_example :
    IsReadOnly patterns policy "kingdee.material.get" "material"
      (plan "kingdee.material.get" "material")
unfolding plan_for plan_from lookup required_forbidden
plan_for-IsReadOnly_example =
    plan_for-IsReadOnly patterns policy (load-IsFrozen allowlist manifest dictionary policy loaded)
      "kingdee.material.get" "material" (plan "kingdee.material.get" "material") refl

abbrev transport : Transport
transport = record {
  synthetic = true;
  execute = λ p r. some (record {
    available_status = true;
    rows =
        field "record_ref" (str "R1") (
          field "values" (obj (field "number" (str "N1") end))
            (field "synthetic" (boolean true) end))
        ∷ [];
    metadata = end;
    reason_code = none;
    network_calls = 1;
    startup_available = true;
    metadata_available = true;
  });
}

abbrev log : Log
log = record { events = []; calls = [] }

invoke-Invoked_example :
    Invoked patterns policy transport "kingdee.material.get" request auth log
      (invoke patterns policy transport "kingdee.material.get" request auth log).0
      (invoke patterns policy transport "kingdee.material.get" request auth log).1
invoke-Invoked_example =
    invoke-Invoked patterns policy transport
      (load-IsFrozen allowlist manifest dictionary policy loaded) "kingdee.material.get" request
      auth log

abbrev destination : LiveDestination
destination = record {
  url = "https://kingdee.example.com/k3cloud";
  allowlisted_urls = "https://kingdee.example.com/k3cloud" ∷ [];
}

abbrev gates : LiveEntryGates
gates = record {
  enabled = true;
  gate = pos 5;
  runtime_mode = "live";
  network_allowed = true;
  credentials_available = true;
  metadata_verified = true;
  business_reads_enabled = true;
}

abbrev backend : LiveBackend
backend d p r = returned_result (record {
  available_status = true;
  rows =
      field "record_ref" (str "R1") (field "values" (obj (field "number" (str "N1") end)) end) ∷ [];
  metadata = end;
  reason_code = none;
  network_calls = 1;
  startup_available = true;
  metadata_available = true;
})

invoke-Gated_example :
    Gated destination gates backend
      (admitted patterns policy
        (live_transport destination gates backend)
        "kingdee.material.get"
        request
        auth)
      (invoke patterns policy
        (live_transport destination gates backend)
        "kingdee.material.get"
        request
        auth
        log).0
invoke-Gated_example =
    invoke-Gated destination gates backend patterns policy
      (load-IsFrozen allowlist manifest dictionary policy loaded) "kingdee.material.get" request
      auth log
