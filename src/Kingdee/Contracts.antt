-- ===== src/Kingdee/Contracts.antt =====
-- services/kingdee_adapter/policy.py: FrozenKingdeePolicy.load over the three contract files, which
-- are given parsed. `none` is ValueError, the one exception of these functions.
use Prim.Native.String.{len, slice}
use esan_gbos.Prelude.{
  ℕ, ◌-◌, String, Bool, true, false, not, ◌&&◌, Option, none, some, List, [], ◌∷◌, ◌==◌, string_eq,
  nat_eq, leb, contains, is_unique, all, length, map, opt_beq,
}
use esan_gbos.Prelude.Int.{pos}
use esan_gbos.Prelude.Dict.{Dict, lookup, insert, values}
use esan_gbos.Prelude.Json.{Json, boolean, num, obj, Items, nil, cons, Fields, get}
use esan_gbos.Tasks.Documents.{
  as_str, as_obj, as_arr, texts, same_keys, is_empty, require, ◌>>=◌, ◌>>◌,
}
use esan_gbos.Kingdee.Models.{QueryPlan}

pub record FrozenKingdeePolicy : Type 0 where
  pub allowlist_version : String
  pub dictionary_version : String
  pub max_rows : ℕ
  pub read_tools : List String
  pub tools : List String
  pub forbidden_operation_tokens : List String
  pub tool_to_object : Dict String String
  pub object_plans : Dict String QueryPlan

-- `text.endswith(suffix)`
abbrev pub ends_with : String → String → Bool
ends_with text suffix =
    leb (len suffix) (len text) && slice text (len text - len suffix) (len text) == suffix

abbrev pub has_key {ℓ} : {V : Type ℓ} → String → Dict String V → Bool
has_key k d = elim (lookup k d) [ none ↦ false | some _ ↦ true ]

-- `list(d)`
abbrev pub dict_keys {ℓ} : {V : Type ℓ} → Dict String V → List String
dict_keys [] = []
dict_keys ((k, _) ∷ d) = k ∷ dict_keys d

-- `a == b` on dicts of texts.
abbrev pub same_dict : Dict String String → Dict String String → Bool
same_dict a b = length a == length b && all (λ row. opt_beq (lookup row.0 b) (some row.1)) a

-- _tool_mapping: one entry
abbrev pub tool_entry : Json → Option (String × String)
tool_entry item = do
  entry ← as_obj (some item)
  name ← as_str (get "name" entry)
  logical_object ← as_str (get "logical_object" entry)
  some (name, logical_object)

unfoldable pub read_tools : Items → Dict String String → Option (Dict String String)
read_tools nil result = some result
read_tools (cons item items) result = do
  entry ← tool_entry item
  require (not (has_key entry.0 result))
  read_tools items (insert entry.0 entry.1 result)

unfoldable pub tool_mapping : Option Json → Option (Dict String String)
tool_mapping value = do
  items ← as_arr value
  result ← read_tools items []
  require (length result == 7)
  some result

-- `{logical_object: tool for tool, logical_object in tool_to_object.items()}`
unfoldable pub inverse : Dict String String → Dict String String → Dict String String
inverse result [] = result
inverse result ((tool, logical_object) ∷ d) = inverse (insert logical_object tool result) d

-- `candidate.get("verification_status") == "gate5_metadata_required"`, and its text `value`.
abbrev pub candidate_value : Option Json → Option String
candidate_value value = do
  candidate ← as_obj value
  status ← as_str (get "verification_status" candidate)
  require (status == "gate5_metadata_required")
  as_str (get "value" candidate)

-- A field of the dictionary: its logical name, its source field and its type.
pub record Column : Type 0 where
  pub logical_name : String
  pub source_field : String
  pub data_type : String

abbrev pub read_column : Json → Option Column
read_column value = do
  entry ← as_obj (some value)
  logical_name ← as_str (get "logical_name" entry)
  data_type ← as_str (get "data_type" entry)
  source_field ← candidate_value (get "candidate_field" entry)
  some (record { logical_name = logical_name; source_field = source_field; data_type = data_type })

unfoldable pub read_columns : Items → Option (List Column)
read_columns nil = some []
read_columns (cons value items) = do
  column ← read_column value
  columns ← read_columns items
  some (column ∷ columns)

abbrev pub logical_names : List Column → List String
logical_names columns = map (λ column. column.logical_name) columns

-- `((logical_fields[0], "asc"),)`
abbrev pub first_ascending : List String → List (String × String)
first_ascending [] = []
first_ascending (name ∷ _) = (name, "asc") ∷ []

abbrev pub plan_of : String → String → String → List Column → QueryPlan
plan_of tool_name logical_object source_form columns = record {
  tool_name = tool_name;
  logical_object = logical_object;
  source_form = source_form;
  fields = logical_names columns;
  source_fields = map (λ column. column.source_field) columns;
  field_types = map (λ column. column.data_type) columns;
  filters = [];
  order = first_ascending (logical_names columns);
}

-- _dictionary_plans: the body of the loop
unfoldable pub read_plan : Dict String String → Json → Option QueryPlan
read_plan object_to_tool value = do
  item ← as_obj (some value)
  logical_object ← as_str (get "logical_object" item)
  source_form ← candidate_value (get "candidate_form" item)
  require (not (source_form == ""))
  fields ← as_arr (get "fields" item)
  columns ← read_columns fields
  require (not (is_empty columns) && is_unique (logical_names columns))
  tool_name ← lookup logical_object object_to_tool
  some (plan_of tool_name logical_object source_form columns)

unfoldable pub read_plans :
    Dict String String → Items → Dict String QueryPlan → Option (Dict String QueryPlan)
read_plans object_to_tool nil result = some result
read_plans object_to_tool (cons value items) result = do
  plan ← read_plan object_to_tool value
  read_plans object_to_tool items (insert plan.logical_object plan result)

unfoldable pub dictionary_plans : Option Json → Dict String String → Option (Dict String QueryPlan)
dictionary_plans value tool_to_object = do
  items ← as_arr value
  read_plans (inverse [] tool_to_object) items []

-- `item.get("mutates") is False` for every tool
abbrev pub mutates_not : Json → Bool
mutates_not (obj item) = elim (get "mutates" item) [ some (boolean false) ↦ true | _ ↦ false ]
mutates_not _ = false

unfoldable pub none_mutates : Items → Bool
none_mutates nil = true
none_mutates (cons item items) = mutates_not item && none_mutates items

abbrev pub is_fifty : Option Json → Bool
is_fifty (some (num (pos n))) = n == 50
is_fifty _ = false

-- `required_forbidden`
unfoldable pub required_forbidden : List String
required_forbidden =
    "create" ∷ "update" ∷ "save" ∷ "submit" ∷ "audit" ∷ "unaudit" ∷ "delete" ∷ "payment" ∷ "write"
    ∷ "execute" ∷ "push" ∷ []

unfoldable pub load : Fields → Fields → Fields → Option FrozenKingdeePolicy
load allowlist manifest dictionary = do
  allowlist_tools ← tool_mapping (get "tools" allowlist)
  manifest_tools ← tool_mapping (get "tools" manifest)
  require (same_dict allowlist_tools manifest_tools)
  require (all (λ tool. ends_with tool ".get") (dict_keys allowlist_tools))
  listed ← as_arr (get "tools" manifest)
  require (none_mutates listed)
  object_plans ← dictionary_plans (get "objects" dictionary) allowlist_tools
  require (same_keys (dict_keys object_plans) (values allowlist_tools))
  require (is_fifty (get "max_rows" allowlist))
  forbidden_tokens ← texts (← as_arr (get "forbidden_operation_tokens" allowlist))
  require (all (λ token. not (token == "")) forbidden_tokens)
  require (all (λ token. contains token forbidden_tokens) required_forbidden)
  allowlist_version ← as_str (get "allowlist_version" allowlist)
  dictionary_version ← as_str (get "dictionary_version" dictionary)
  some (record {
    allowlist_version = allowlist_version;
    dictionary_version = dictionary_version;
    max_rows = 50;
    read_tools = dict_keys allowlist_tools;
    tools = "metadata.get" ∷ dict_keys allowlist_tools;
    forbidden_operation_tokens = forbidden_tokens;
    tool_to_object = allowlist_tools;
    object_plans = object_plans;
  })
