-- ===== src/Kingdee/Requests.antt =====
-- services/kingdee_adapter/policy.py: what a request that validate_request accepts is like.
use esan_gbos.Prelude.{
  ℕ, ◌≤◌, String, Bool, true, Option, none, some, ◌≡◌, subst, arith, contains, string_eq,
}
use esan_gbos.Prelude.Int.{pos, negsuc}
use esan_gbos.Prelude.Json.{Json, null, boolean, num, float, str, arr, obj, Fields, get, keys}
use esan_gbos.Tasks.Documents.{same_keys, as_str, bind-some, require-some, some_injective}
use esan_gbos.Kingdee.Models.{AuthContext, ValidatedRequest}
use esan_gbos.Kingdee.Contracts.{FrozenKingdeePolicy, has_key}
use esan_gbos.Kingdee.Policy.{
  Patterns, request_keys, max_timeout_ms, match_text, bounded_int, validate_request,
}

-- What validate_request promises of the request that it returns.
pub record IsValidated (x : Patterns) (policy : FrozenKingdeePolicy) (request : Fields)
    (auth : AuthContext) (r : ValidatedRequest) : Type 0 where
  pub closed : same_keys (keys request) request_keys ≡ true
  pub authorized :
      (auth.authenticated ≡ true) × (contains "kingdee-read" auth.granted_scopes ≡ true)
  pub matched :
      (x.is_request_id r.request_id ≡ true)
      × (x.is_site_id r.site_id ≡ true)
      × (x.is_account_set r.account_set_ref ≡ true)
      × (x.is_purpose r.processing_purpose ≡ true)
  pub planned : has_key r.logical_object policy.object_plans ≡ true
  pub limit : (1 ≤ r.limit) × (r.limit ≤ policy.max_rows)
  pub offset : r.offset ≤ 1000000
  pub timeout : (1 ≤ r.timeout_ms) × (r.timeout_ms ≤ max_timeout_ms)

bounded_int-lem :
    (value : Option Json) (minimum maximum n : ℕ)
    → bounded_int value minimum maximum ≡ some n
    → (minimum ≤ n) × (n ≤ maximum)
unfolding bounded_int
bounded_int-lem (some (num (pos k))) minimum maximum n h = ground arith
bounded_int-lem (some (num (negsuc k))) minimum maximum n h = cc
bounded_int-lem none minimum maximum n h = cc
bounded_int-lem (some null) minimum maximum n h = cc
bounded_int-lem (some (boolean _)) minimum maximum n h = cc
bounded_int-lem (some (float _)) minimum maximum n h = cc
bounded_int-lem (some (str _)) minimum maximum n h = cc
bounded_int-lem (some (arr _)) minimum maximum n h = cc
bounded_int-lem (some (obj _)) minimum maximum n h = cc

match_text-lem :
    (value : Option Json) (pattern : String → Bool) (text : String)
    → match_text value pattern ≡ some text
    → pattern text ≡ true
unfolding match_text
match_text-lem value pattern text h =
    let (t, _, h1) = bind-some (as_str value) _ h in
    let (passes, h2) = require-some (pattern t) _ h1 in
    subst (λ s. pattern s ≡ true) (some_injective h2) passes

-- A request that validate_request accepts has exactly the keys of _REQUEST_KEYS and comes from an
-- authenticated caller with the scope kingdee-read; its identifiers match their patterns, its
-- object has a plan, its limit is from 1 to the policy's max_rows, its offset at most 1,000,000
-- and its timeout from 1 to 30,000 milliseconds.
pub validate_request-IsValidated :
    (x : Patterns) (policy : FrozenKingdeePolicy) (request : Fields) (auth : AuthContext)
    (r : ValidatedRequest)
    → validate_request x policy request auth ≡ some r
    → IsValidated x policy request auth r
unfolding validate_request
validate_request-IsValidated x policy request auth r h0 =
    let (closed, h1) = require-some (same_keys (keys request) request_keys) _ h0 in
    let (authenticated, h2) = require-some auth.authenticated _ h1 in
    let (scoped, h3) = require-some (contains "kingdee-read" auth.granted_scopes) _ h2 in
    let (request_id, a, h4) =
      bind-some (match_text (get "request_id" request) x.is_request_id) _ h3 in
    let (site_id, b, h5) = bind-some (match_text (get "site_id" request) x.is_site_id) _ h4 in
    let (account_set_ref, c, h6) =
      bind-some (match_text (get "account_set_ref" request) x.is_account_set) _ h5 in
    let (purpose, d, h7) =
      bind-some (match_text (get "processing_purpose" request) x.is_purpose) _ h6 in
    let (logical_object, _, h8) = bind-some (as_str (get "logical_object" request)) _ h7 in
    let (planned, h9) = require-some (has_key logical_object policy.object_plans) _ h8 in
    let (limit, e, h10) = bind-some (bounded_int (get "limit" request) 1 policy.max_rows) _ h9 in
    let (offset, f, h11) = bind-some (bounded_int (get "offset" request) 0 1000000) _ h10 in
    let (timeout_ms, g, h12) =
      bind-some (bounded_int (get "timeout_ms" request) 1 max_timeout_ms) _ h11 in
    subst (IsValidated x policy request auth) (some_injective h12) (record {
      closed = closed;
      authorized = (authenticated, scoped);
      matched = (
        match_text-lem _ _ _ a,
        match_text-lem _ _ _ b,
        match_text-lem _ _ _ c,
        match_text-lem _ _ _ d,
      );
      planned = planned;
      limit = bounded_int-lem _ _ _ _ e;
      offset = (bounded_int-lem _ _ _ _ f).1;
      timeout = bounded_int-lem _ _ _ _ g;
    })
