-- ===== src/Kingdee/Rows.antt =====
-- services/kingdee_adapter/adapter.py: what invoke asks of the transport, answers and records.
use esan_gbos.Prelude.{
  All, ◌∙◌, if◌then◌else◌, ◌≤◌, String, Bool, true, false, Option, none, some, List, [], ◌∷◌, ◌++◌,
  ◌≡◌, refl, ap, subst, arith, ◌==◌, string_eq, nat_eq, leb, leb→le, length, Bool-cases, inl, inr,
}
use esan_gbos.Prelude.Json.{Fields}
use esan_gbos.Tasks.Documents.{bind-some, some_injective}
use esan_gbos.Kingdee.Models.{
  AuthContext, ValidatedRequest, QueryPlan, TransportResult, AdapterResponse,
}
use esan_gbos.Kingdee.Contracts.{FrozenKingdeePolicy}
use esan_gbos.Kingdee.Policy.{Patterns, plan_for, validate_request}
use esan_gbos.Kingdee.Adapter.{
  Transport, Log, Outcome, answered, request_rejected, transport_raised, answer_of, conclude,
  read_event, rejection_event, admitted, settle, respond, invoke,
}
use esan_gbos.Kingdee.Validation.{valid_row, valid_rows, is_valid, no_rows}
use esan_gbos.Kingdee.Frozen.{IsFrozen}
use esan_gbos.Kingdee.Requests.{IsValidated, validate_request-IsValidated}
use esan_gbos.Kingdee.Plans.{IsReadOnly, IsTyped, plan_for-IsReadOnly, plan_for-IsTyped}
use esan_gbos.Kingdee.Answers.{IsAnswer, answer_of-given, answer_of-IsAnswer}

-- The rows of an answer for a plan.
pub record IsBounded (synthetic : Bool) (plan : QueryPlan) (request : ValidatedRequest)
    (response : AdapterResponse) : Type 0 where
  pub limit : length response.rows ≤ request.limit
  pub page : response.page.returned_rows ≡ length response.rows
  pub metadata : (plan.tool_name == "metadata.get") ≡ true → response.rows ≡ []
  pub valid :
      (plan.tool_name == "metadata.get") ≡ false
      → All (λ row. valid_row synthetic plan row ≡ some true) response.rows

-- What happened in a call of invoke that started from a log.
pub data Invoked (x : Patterns) (policy : FrozenKingdeePolicy) (transport : Transport)
    (tool : String) (request : Fields) (auth : AuthContext) (before : Log)
    : Outcome → Log → Type 0 where
  -- nothing was asked of the transport
  denied :
      (after : Log)
      → after.calls ≡ before.calls
      → after.events ≡ before.events ++ rejection_event x policy transport tool ∷ []
      → Invoked x policy transport tool request auth before request_rejected after
  -- one call was made, and nothing recorded
  failed :
      (after : Log) (plan : QueryPlan) (validated : ValidatedRequest)
      → IsValidated x policy request auth validated
      → IsReadOnly x policy tool validated.logical_object plan
      → after.calls ≡ before.calls ++ (plan, validated) ∷ []
      → after.events ≡ before.events
      → Invoked x policy transport tool request auth before transport_raised after
  -- one call was made, and its answer is recorded
  returned :
      (after : Log) (response : AdapterResponse) (plan : QueryPlan) (validated : ValidatedRequest)
      → IsValidated x policy request auth validated
      → IsReadOnly x policy tool validated.logical_object plan
      → IsBounded transport.synthetic plan validated response
      → length response.rows ≤ 50
      → after.calls ≡ before.calls ++ (plan, validated) ∷ []
      → after.events ≡ before.events ++ read_event x policy transport tool validated response ∷ []
      → Invoked x policy transport tool request auth before (answered response) after

no_rows-lem : (rows : List Fields) → no_rows rows ≡ true → rows ≡ []
no_rows-lem [] h = refl
no_rows-lem (_ ∷ _) h = cc

valid_rows-All :
    (synthetic : Bool) (plan : QueryPlan) (rows : List Fields)
    → valid_rows synthetic plan rows ≡ some true
    → All (λ row. valid_row synthetic plan row ≡ some true) rows
unfolding valid_rows
valid_rows-All synthetic plan [] h = tt
valid_rows-All synthetic plan (row ∷ rows) h0 =
    let (valid, e, h1) = bind-some (valid_row synthetic plan row) _ h0 in
    elim (Bool-cases valid) [
      | inl good ↦
          let rest : valid_rows synthetic plan rows ≡ some true = rw good at h1 in
          (e ∙ ap some good, valid_rows-All synthetic plan rows rest)
      | inr bad ↦
          let wrong : some false ≡ some true = rw bad at h1 in
          let no : false ≡ true = some_injective wrong in cc
    ]

valid-lem :
    (synthetic : Bool) (plan : QueryPlan) (request : ValidatedRequest) (rows : List Fields)
    → is_valid synthetic plan request rows ≡ some true
    → (length rows ≤ request.limit)
      × ((plan.tool_name == "metadata.get") ≡ true → rows ≡ [])
      × ((plan.tool_name == "metadata.get") ≡ false
          → All (λ row. valid_row synthetic plan row ≡ some true) rows)
unfolding is_valid
valid-lem synthetic plan request rows h = elim (Bool-cases (plan.tool_name == "metadata.get")) [
  | inl meta ↦
      let none_left : rows ≡ [] = no_rows-lem rows (some_injective (rw meta at h)) in
      (rw none_left (omega arith), (λ _. none_left), λ e. cc)
  | inr other ↦
      let tests : (if leb (length rows) request.limit
            then valid_rows synthetic plan rows
            else some false)
          ≡ some true =
        rw other at h in
      elim (Bool-cases (leb (length rows) request.limit)) [
        | inl short ↦
            let good : valid_rows synthetic plan rows ≡ some true = rw short at tests in
            (leb→le _ _ short, (λ e. cc), λ _. valid_rows-All synthetic plan rows good)
        | inr long ↦
            let wrong : some false ≡ some true = rw long at tests in
            let no : false ≡ true = some_injective wrong in cc
      ]
]

IsAnswer-IsBounded :
    (synthetic : Bool) (plan : QueryPlan) (request : ValidatedRequest) (result : TransportResult)
    (response : AdapterResponse)
    → IsAnswer synthetic plan request result response
    → IsBounded synthetic plan request response
IsAnswer-IsBounded synthetic plan request result response answer = elim answer.rows [
  | inl e ↦ record {
    limit = rw e (omega arith);
    page = answer.page;
    metadata = λ _. e;
    valid = λ _. rw e tt;
  }
  | inr (_, valid) ↦
      let (limit, metadata, rows) = valid-lem synthetic plan request response.rows valid in
      record { limit = limit; page = answer.page; metadata = metadata; valid = rows }
]

module _ (x : Patterns) (policy : FrozenKingdeePolicy) (transport : Transport)
    (frozen : IsFrozen policy) where
  conclude-Invoked :
      (tool : String) (request : Fields) (auth : AuthContext) (before log : Log)
      (validated : ValidatedRequest) (plan : QueryPlan) (o : Option AdapterResponse)
      → ((response : AdapterResponse) × (o ≡ some response))
      → ((response : AdapterResponse)
          → o ≡ some response
          → IsBounded transport.synthetic plan validated response)
      → IsValidated x policy request auth validated
      → IsReadOnly x policy tool validated.logical_object plan
      → log.calls ≡ before.calls ++ (plan, validated) ∷ []
      → log.events ≡ before.events
      → let r = conclude x policy transport tool validated o log in
        Invoked x policy transport tool request auth before r.0 r.1
  unfolding conclude
  conclude-Invoked tool request auth before log validated plan none (_, e) bounds v ro calls
        events =
      cc
  conclude-Invoked tool request auth before log validated plan (some response) _ bounds v ro calls
        events =
      let bounded = bounds response refl in
      returned _ _ plan validated v ro bounded
        (omega (arith, bounded.limit, v.limit.1, frozen.rows)) calls
        (ap (λ es. es ++ read_event x policy transport tool validated response ∷ []) events)

  settle-Invoked :
      (tool : String) (request : Fields) (auth : AuthContext) (before log : Log)
      (validated : ValidatedRequest) (plan : QueryPlan) (answer : Option TransportResult)
      → IsTyped plan
      → IsValidated x policy request auth validated
      → IsReadOnly x policy tool validated.logical_object plan
      → log.calls ≡ before.calls ++ (plan, validated) ∷ []
      → log.events ≡ before.events
      → let r = settle x policy transport tool validated plan answer log in
        Invoked x policy transport tool request auth before r.0 r.1
  unfolding settle
  settle-Invoked tool request auth before log validated plan none typed v ro calls events =
      failed log plan validated v ro calls events
  settle-Invoked tool request auth before log validated plan (some result) typed v ro calls events =
      conclude-Invoked tool request auth before log validated plan
        (answer_of transport.synthetic plan validated result)
        (answer_of-given transport.synthetic plan validated result typed)
        (λ response h.
          IsAnswer-IsBounded transport.synthetic plan validated result response
            (answer_of-IsAnswer transport.synthetic plan validated result response h))
        v ro calls events

  respond-Invoked :
      (tool : String) (request : Fields) (auth : AuthContext) (log : Log)
      (o : Option (ValidatedRequest × QueryPlan))
      → admitted x policy transport tool request auth ≡ o
      → let r = respond x policy transport tool o log in
        Invoked x policy transport tool request auth log r.0 r.1
  unfolding respond admitted
  respond-Invoked tool request auth log none h = denied _ refl refl
  respond-Invoked tool request auth log (some (validated, plan)) h0 =
      let (v, accepted, h1) = bind-some (validate_request x policy request auth) _ h0 in
      let (p, planned, h2) = bind-some (plan_for x policy tool v.logical_object) _ h1 in
      let same = some_injective h2 in
      let is_validated : IsValidated x policy request auth validated =
        subst (λ r. IsValidated x policy request auth r.0) same
          (validate_request-IsValidated x policy request auth v accepted) in
      let is_read_only : IsReadOnly x policy tool validated.logical_object plan =
        subst (λ r. IsReadOnly x policy tool r.0.logical_object r.1) same
          (plan_for-IsReadOnly x policy frozen tool v.logical_object p planned) in
      let is_typed : IsTyped plan =
        subst (λ r. IsTyped r.1) same
          (plan_for-IsTyped x policy frozen tool v.logical_object p planned) in
      settle-Invoked tool request auth log _ validated plan (transport.execute plan validated)
        is_typed is_validated is_read_only refl refl

  -- With a policy that load returned, a call of invoke that is rejected asks nothing of the
  -- transport and records one rejection. Any other call makes exactly one call of the transport,
  -- with a validated request and a read-only plan for its object; where the transport raises,
  -- nothing is recorded, and where it answers, one event is recorded, and the response has at most
  -- as many rows as the request's limit, so at most 50: none for metadata.get, and otherwise only
  -- rows that passed the tests of _valid_row.
  pub invoke-Invoked :
      (tool : String) (request : Fields) (auth : AuthContext) (log : Log)
      → let r = invoke x policy transport tool request auth log in
        Invoked x policy transport tool request auth log r.0 r.1
  unfolding invoke
  invoke-Invoked tool request auth log = respond-Invoked tool request auth log _ refl
