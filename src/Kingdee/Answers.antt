-- ===== src/Kingdee/Answers.antt =====
-- services/kingdee_adapter/adapter.py: what invoke makes of a transport's result. For a plan whose
-- lists are equally long no `zip(..., strict=True)` raises.
use esan_gbos.Prelude.{
  String, Bool, true, false, not, Option, none, some, List, [], ◌∷◌, ◌≡◌, refl, sym, ap, ◌∙◌, subst,
  arith, ◌==◌, string_eq, nat_eq, leb, length, Bool-cases, inl, inr, ◌⊎◌, if◌then◌else◌,
}
use esan_gbos.Prelude.Json.{Json, null, boolean, num, float, str, arr, obj, Fields, end, get, keys}
use esan_gbos.Tasks.Documents.{bind-some, some_injective, same_keys, ◌>>=◌}
use esan_gbos.Kingdee.Models.{ValidatedRequest, QueryPlan, TransportResult, AdapterResponse}
use esan_gbos.Kingdee.Adapter.{
  field_rows, metadata_fields, metadata_payload, response_with, response_of, answer_of,
}
use esan_gbos.Kingdee.Validation.{
  field_matches, values_match, values_valid, is_row, valid_row, valid_rows, no_rows, is_valid,
  keep_if_valid, validate_transport_result,
}
use esan_gbos.Kingdee.Plans.{IsTyped}

abbrev Gives : {A : Type 0} → Option A → Type 0
Gives {A} o = (a : A) × (o ≡ some a)

Gives-bind :
    {A B : Type 0} (m : Option A) (f : A → Option B)
    → Gives m
    → ((a : A) → Gives (f a))
    → Gives (m >>= f)
Gives-bind m f (a, e) go = subst (λ o. Gives (o >>= f)) (sym e) (go a)

Gives-if : {A : Type 0} (b : Bool) (m k : Option A) → Gives m → Gives k → Gives (if b then m else k)
Gives-if true m k g h = g
Gives-if false m k g h = h

values_match-Gives :
    (values : Fields) (names types : List String)
    → length types ≡ length names
    → Gives (values_match values names types)
unfolding values_match
values_match-Gives values [] [] e = (true, refl)
values_match-Gives values (name ∷ names) (data_type ∷ types) e =
    Gives-if (field_matches values name data_type) _ _
      (values_match-Gives values names types (omega (arith, e))) (false, refl)
values_match-Gives values [] (_ ∷ _) e = absurd (omega (arith, e))
values_match-Gives values (_ ∷ _) [] e = absurd (omega (arith, e))

values_valid-Gives :
    (plan : QueryPlan) (value : Option Json) → IsTyped plan → Gives (values_valid plan value)
values_valid-Gives plan (some (obj values)) typed =
    Gives-if (same_keys (keys values) plan.fields) _ _
      (values_match-Gives values plan.fields plan.field_types typed.1) (false, refl)
values_valid-Gives plan none typed = (false, refl)
values_valid-Gives plan (some null) typed = (false, refl)
values_valid-Gives plan (some (boolean _)) typed = (false, refl)
values_valid-Gives plan (some (num _)) typed = (false, refl)
values_valid-Gives plan (some (float _)) typed = (false, refl)
values_valid-Gives plan (some (str _)) typed = (false, refl)
values_valid-Gives plan (some (arr _)) typed = (false, refl)

valid_rows-Gives :
    (synthetic : Bool) (plan : QueryPlan) (rows : List Fields)
    → IsTyped plan
    → Gives (valid_rows synthetic plan rows)
unfolding valid_rows valid_row
valid_rows-Gives synthetic plan [] typed = (true, refl)
valid_rows-Gives synthetic plan (row ∷ rows) typed =
    Gives-bind (valid_row synthetic plan row) _
      (Gives-if (is_row synthetic row) _ _ (values_valid-Gives plan (get "values" row) typed)
        (false, refl))
      λ valid. Gives-if valid _ _ (valid_rows-Gives synthetic plan rows typed) (false, refl)

validate-Gives :
    (synthetic : Bool) (plan : QueryPlan) (request : ValidatedRequest) (result : TransportResult)
    → IsTyped plan
    → Gives (validate_transport_result synthetic plan request result)
unfolding validate_transport_result is_valid
validate-Gives synthetic plan request result typed =
    Gives-if result.available_status _ _
      (Gives-bind (is_valid synthetic plan request result.rows) _
        (Gives-if (plan.tool_name == "metadata.get") _ _ (no_rows result.rows, refl)
          (Gives-if (leb (length result.rows) request.limit) _ _
            (valid_rows-Gives synthetic plan result.rows typed) (false, refl)))
        λ valid. (keep_if_valid result valid, refl))
      (result, refl)

field_rows-Gives :
    (synthetic : Bool) (names sources types : List String)
    → length sources ≡ length names
    → length types ≡ length names
    → Gives (field_rows synthetic names sources types)
unfolding field_rows
field_rows-Gives synthetic [] [] [] e f = (_, refl)
field_rows-Gives synthetic (name ∷ names) (source ∷ sources) (data_type ∷ types) e f =
    Gives-bind (field_rows synthetic names sources types) _
      (field_rows-Gives synthetic names sources types (omega (arith, e)) (omega (arith, f)))
      λ rest. (_, refl)
field_rows-Gives synthetic [] [] (_ ∷ _) e f = absurd (omega (arith, f))
field_rows-Gives synthetic [] (_ ∷ _) _ e f = absurd (omega (arith, e))
field_rows-Gives synthetic (_ ∷ _) [] _ e f = absurd (omega (arith, e))
field_rows-Gives synthetic (_ ∷ _) (_ ∷ _) [] e f = absurd (omega (arith, f))

metadata_payload-Gives :
    (synthetic : Bool) (plan : QueryPlan) (result : TransportResult)
    → IsTyped plan
    → Gives (metadata_payload synthetic plan result)
unfolding metadata_payload
metadata_payload-Gives synthetic plan result typed =
    Gives-if (not result.available_status) _ _ (end, refl)
      (Gives-if (plan.tool_name == "metadata.get") _ _
        (Gives-bind (field_rows synthetic plan.fields plan.source_fields plan.field_types) _
          (field_rows-Gives synthetic plan.fields plan.source_fields plan.field_types typed.0
            typed.1)
          λ items. (metadata_fields plan items, refl))
        (_, refl))

-- For such a plan there is a response.
pub answer_of-given :
    (synthetic : Bool) (plan : QueryPlan) (request : ValidatedRequest) (result : TransportResult)
    → IsTyped plan
    → (response : AdapterResponse) × (answer_of synthetic plan request result ≡ some response)
unfolding answer_of response_of
answer_of-given synthetic plan request result typed =
    Gives-bind (validate_transport_result synthetic plan request result) _
      (validate-Gives synthetic plan request result typed)
      λ settled.
        Gives-bind (metadata_payload synthetic plan settled) _
          (metadata_payload-Gives synthetic plan settled typed) λ metadata. (_, refl)

-- What _validate_transport_result keeps of a result: nothing, or all of it, when it is valid.
abbrev Kept : Bool → QueryPlan → ValidatedRequest → TransportResult → TransportResult → Type 0
Kept synthetic plan request result settled =
    ((settled.available_status ≡ false) × (settled.network_calls ≡ result.network_calls))
    ⊎ ((settled ≡ result) × (is_valid synthetic plan request result.rows ≡ some true))

chosen : {A : Type 0} (b : Bool) (m k : A) → b ≡ true → (if b then m else k) ≡ m
chosen b m k e = ap (λ c. if c then m else k) e

passed_over : {A : Type 0} (b : Bool) (m k : A) → b ≡ false → (if b then m else k) ≡ k
passed_over b m k e = ap (λ c. if c then m else k) e

validate-cases :
    (synthetic : Bool) (plan : QueryPlan) (request : ValidatedRequest)
    (result settled : TransportResult)
    → validate_transport_result synthetic plan request result ≡ some settled
    → Kept synthetic plan request result settled
unfolding validate_transport_result
validate-cases synthetic plan request result settled h = elim (Bool-cases result.available_status) [
  | inr away ↦
      let as_is : some result ≡ some settled =
        sym (passed_over result.available_status _ (some result) away) ∙ h in
      let same = some_injective as_is in
      inl (subst (λ r. r.available_status ≡ false) same away, ap (λ r. r.network_calls) (sym same))
  | inl here ↦
      let checked : is_valid synthetic plan request result.rows
            >>= (λ valid. some (keep_if_valid result valid))
          ≡ some settled =
        sym (chosen result.available_status _ (some result) here) ∙ h in
      let (valid, e, h') = bind-some (is_valid synthetic plan request result.rows) _ checked in
      kept valid e (some_injective h')
]
  where
    kept :
        (valid : Bool)
        → is_valid synthetic plan request result.rows ≡ some valid
        → keep_if_valid result valid ≡ settled
        → Kept synthetic plan request result settled
    kept true e same = inr (sym same, e)
    kept false e same =
        inl (ap (λ r. r.available_status) (sym same), ap (λ r. r.network_calls) (sym same))

-- A response is that to a result which _validate_transport_result gave.
pub record IsAnswer (synthetic : Bool) (plan : QueryPlan) (request : ValidatedRequest)
    (result : TransportResult) (response : AdapterResponse) : Type 0 where
  pub rows :
      (response.rows ≡ [])
      ⊎ ((response.rows ≡ result.rows)
          × (is_valid synthetic plan request response.rows ≡ some true))
  pub page : response.page.returned_rows ≡ length response.rows
  pub network_calls : response.controls.network_calls ≡ result.network_calls
  pub synthetic_flag : response.synthetic ≡ synthetic

response_with-IsAnswer :
    (synthetic : Bool) (plan : QueryPlan) (request : ValidatedRequest)
    (result settled : TransportResult) (metadata : Fields)
    → Kept synthetic plan request result settled
    → IsAnswer synthetic plan request result (response_with synthetic plan request settled metadata)
unfolding response_with
response_with-IsAnswer synthetic plan request result settled metadata (inl (away, calls)) = record {
  rows = inl (rw away refl);
  page = refl;
  network_calls = calls;
  synthetic_flag = refl;
}
response_with-IsAnswer synthetic plan request result settled metadata (inr (same, valid)) = record {
  rows = elim (Bool-cases settled.available_status) [
    | inl here ↦
        let kept : (response_with synthetic plan request settled metadata).rows ≡ result.rows =
          ap (λ b. if b then settled.rows else []) here ∙ ap (λ r. r.rows) same in
        inr (kept, subst (λ rs. is_valid synthetic plan request rs ≡ some true) (sym kept) valid)
    | inr away ↦ inl (ap (λ b. if b then settled.rows else []) away)
  ];
  page = refl;
  network_calls = ap (λ r. r.network_calls) same;
  synthetic_flag = refl;
}

pub answer_of-IsAnswer :
    (synthetic : Bool) (plan : QueryPlan) (request : ValidatedRequest) (result : TransportResult)
    (response : AdapterResponse)
    → answer_of synthetic plan request result ≡ some response
    → IsAnswer synthetic plan request result response
unfolding answer_of response_of
answer_of-IsAnswer synthetic plan request result response h0 =
    let (settled, e, h1) =
      bind-some (validate_transport_result synthetic plan request result) _ h0 in
    let (metadata, _, h2) = bind-some (metadata_payload synthetic plan settled) _ h1 in
    subst (IsAnswer synthetic plan request result) (some_injective h2) (
      response_with-IsAnswer synthetic plan request result settled metadata
        (validate-cases synthetic plan request result settled e))
