-- ===== src/Kingdee/Models.antt =====
-- services/kingdee_adapter/models.py, audit.py and transport.py: the adapter's records. Rows and
-- metadata are JSON objects; their copies are the values themselves.
use esan_gbos.Prelude.{
  ℕ, String, Bool, false, not, ◌&&◌, Option, some, List, [], string_eq, all, is_unique, ◌==◌,
}
use esan_gbos.Prelude.Json.{Json, Fields, end}

pub data AdapterStatus : Type 0 where
  available unavailable : AdapterStatus

pub data VerificationStatus : Type 0 where
  verified unavailable not_attempted : VerificationStatus

pub record AuthContext : Type 0 where
  pub authenticated : Bool
  pub granted_scopes : List String

-- AuthContext.__post_init__, as a test: whether it passes.
abbrev pub is_auth : AuthContext → Bool
is_auth auth = is_unique auth.granted_scopes && all (λ scope. not (scope == "")) auth.granted_scopes

pub record ValidatedRequest : Type 0 where
  pub request_id : String
  pub site_id : String
  pub account_set_ref : String
  pub processing_purpose : String
  pub logical_object : String
  pub limit : ℕ
  pub offset : ℕ
  pub timeout_ms : ℕ

pub record QueryPlan : Type 0 where
  pub tool_name : String
  pub logical_object : String
  pub source_form : String
  pub fields : List String
  pub source_fields : List String
  pub field_types : List String
  pub filters : List (String × String × Json)
  pub order : List (String × String)

pub record TransportResult : Type 0 where
  pub available_status : Bool
  pub rows : List Fields
  pub metadata : Fields
  pub reason_code : Option String
  pub network_calls : ℕ
  pub startup_available : Bool
  pub metadata_available : Bool

-- TransportResult.unavailable
abbrev pub unavailable_result : String → ℕ → Bool → Bool → TransportResult
unavailable_result reason_code network_calls startup_available metadata_available = record {
  available_status = false;
  rows = [];
  metadata = end;
  reason_code = some reason_code;
  network_calls = network_calls;
  startup_available = startup_available;
  metadata_available = metadata_available;
}

pub record VerificationSnapshot : Type 0 where
  pub startup : VerificationStatus
  pub authentication : VerificationStatus
  pub metadata : VerificationStatus
  pub business : VerificationStatus

pub record ControlMetrics : Type 0 where
  pub network_calls : ℕ
  pub writer_tools_discovered : ℕ
  pub mutation_attempts : ℕ
  pub synthetic_fallbacks : ℕ

-- The mapping `page`, by its keys.
pub record Page : Type 0 where
  pub limit : ℕ
  pub offset : ℕ
  pub returned_rows : ℕ
  pub has_more : Bool

pub record AdapterResponse : Type 0 where
  pub status : AdapterStatus
  pub request_id : String
  pub site_id : String
  pub logical_object : String
  pub tool_name : String
  pub synthetic : Bool
  pub rows : List Fields
  pub metadata : Fields
  pub page : Page
  pub verification : VerificationSnapshot
  pub controls : ControlMetrics
  pub reason_code : Option String

pub record AuditEvent : Type 0 where
  pub event_type : String
  pub request_id : String
  pub site_id : String
  pub account_set_fingerprint : String
  pub processing_purpose : String
  pub tool_name : String
  pub logical_object : String
  pub status : String
  pub reason_code : Option String
  pub returned_rows : ℕ
  pub synthetic : Bool
  pub network_calls : ℕ
  pub writer_tools_discovered : ℕ
  pub mutation_attempts : ℕ
