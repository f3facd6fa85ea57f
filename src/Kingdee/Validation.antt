-- ===== src/Kingdee/Validation.antt =====
-- services/kingdee_adapter/adapter.py: _validate_transport_result and _valid_row.
use Prim.Native.String.{count}
use esan_gbos.Prelude.{
  String, Bool, true, false, not, ◌&&◌, ◌||◌, Option, none, some, List, [], ◌∷◌, if◌then◌else◌,
  ◌==◌, string_eq, nat_eq, leb, contains, length,
}
use esan_gbos.Prelude.Json.{Json, boolean, num, float, str, arr, obj, Fields, get, keys}
use esan_gbos.Tasks.Documents.{same_keys, ◌>>=◌}
use esan_gbos.Kingdee.Models.{ValidatedRequest, QueryPlan, TransportResult, unavailable_result}

-- _value_matches_type
abbrev pub is_text : Json → Bool
is_text (str _) = true
is_text _ = false

abbrev pub is_number : Json → Bool
is_number (num _) = true
is_number (float _) = true
is_number _ = false

abbrev pub is_scalar : Json → Bool
is_scalar (arr _) = false
is_scalar (obj _) = false
is_scalar _ = true

unfoldable pub value_matches_type : Json → String → Bool
value_matches_type value data_type =
    if contains data_type ("string" ∷ "date" ∷ [])
    then is_text value
    else if data_type == "number"
    then is_number value
    else is_scalar value

-- `values[field]`, which is there since the keys are those of the plan.
abbrev pub field_matches : Fields → String → String → Bool
field_matches values name data_type = elim (get name values) [
  | none ↦ false
  | some value ↦ value_matches_type value data_type
]

-- `all(... for ... in zip(..., strict=True))` of _valid_row. It stops at the first field that does
-- not match; `none` is the ValueError where one list ends before the other.
unfoldable pub values_match : Fields → List String → List String → Option Bool
values_match values [] [] = some true
values_match values (name ∷ names) (data_type ∷ types) =
    let rest = values_match values names types in
    if field_matches values name data_type then rest else some false
values_match values _ _ = none

abbrev pub is_ref_text : Option Json → Bool
is_ref_text (some (str s)) = leb 1 (count s) && leb (count s) 256
is_ref_text _ = false

abbrev pub is_true : Option Json → Bool
is_true (some (boolean b)) = b
is_true _ = false

abbrev pub values_valid : QueryPlan → Option Json → Option Bool
values_valid plan (some (obj values)) =
    let matches = values_match values plan.fields plan.field_types in
    if same_keys (keys values) plan.fields then matches else some false
values_valid plan _ = some false

-- The tests of _valid_row before it looks at the values.
abbrev pub is_row : Bool → Fields → Bool
is_row synthetic row =
    same_keys (keys row) (
      if synthetic
      then "record_ref" ∷ "values" ∷ "synthetic" ∷ []
      else "record_ref" ∷ "values" ∷ [])
    && ((not synthetic || is_true (get "synthetic" row)) && is_ref_text (get "record_ref" row))

-- _valid_row
unfoldable pub valid_row : Bool → QueryPlan → Fields → Option Bool
valid_row synthetic plan row =
    let valid = values_valid plan (get "values" row) in
    if is_row synthetic row then valid else some false

-- `all(...)` over the rows
unfoldable pub valid_rows : Bool → QueryPlan → List Fields → Option Bool
valid_rows synthetic plan [] = some true
valid_rows synthetic plan (row ∷ rows) =
    let rest = valid_rows synthetic plan rows in
    valid_row synthetic plan row >>= λ valid. if valid then rest else some false

abbrev pub no_rows : List Fields → Bool
no_rows [] = true
no_rows (_ ∷ _) = false

unfoldable pub is_valid : Bool → QueryPlan → ValidatedRequest → List Fields → Option Bool
is_valid synthetic plan request rows =
    let valid = valid_rows synthetic plan rows in
    if plan.tool_name == "metadata.get"
    then some (no_rows rows)
    else if leb (length rows) request.limit
    then valid
    else some false

abbrev pub keep_if_valid : TransportResult → Bool → TransportResult
keep_if_valid result true = result
keep_if_valid result false =
    unavailable_result "transport_result_rejected" result.network_calls result.startup_available
      result.metadata_available

-- _validate_transport_result; `none` is the ValueError of _valid_row.
unfoldable pub validate_transport_result :
    Bool → QueryPlan → ValidatedRequest → TransportResult → Option TransportResult
validate_transport_result synthetic plan request result =
    let checked =
      is_valid synthetic plan request result.rows >>= λ valid. some (keep_if_valid result valid) in
    if result.available_status then checked else some result
