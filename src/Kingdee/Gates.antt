-- ===== src/Kingdee/Gates.antt =====
-- services/kingdee_adapter/adapter.py over the LiveTransport of transport.py: what its entry gates
-- guarantee of a call of invoke.
use esan_gbos.Prelude.{
  ℕ, String, Bool, true, false, none, some, Option, [], ◌∷◌, ◌≡◌, ◌⊎◌, inl, inr, refl, ap, subst,
  Bool-cases,
}
use esan_gbos.Prelude.Json.{Fields, end}
use esan_gbos.Kingdee.Models.{
  AdapterStatus, AuthContext, ValidatedRequest, QueryPlan, TransportResult, unavailable_result,
  AdapterResponse,
}
use esan_gbos.Tasks.Documents.{bind-some, some_injective}
use esan_gbos.Kingdee.Contracts.{FrozenKingdeePolicy}
use esan_gbos.Kingdee.Policy.{Patterns, validate_request, plan_for}
use esan_gbos.Kingdee.Frozen.{IsFrozen}
use esan_gbos.Kingdee.Plans.{IsTyped, plan_for-IsTyped}
use esan_gbos.Kingdee.Answers.{IsAnswer, answer_of-given, answer_of-IsAnswer}
use esan_gbos.Kingdee.Adapter.{
  Log, Outcome, answered, request_rejected, response_with, response_of, metadata_payload, answer_of,
  admitted, conclude, settle, respond, invoke,
}
use esan_gbos.Kingdee.Validation.{validate_transport_result}
use esan_gbos.Kingdee.Live.{
  LiveDestination, LiveEntryGates, ready, Reply, raised, foreign, returned_result, LiveBackend,
  live_result, live_execute, live_transport,
}

-- A response that carries nothing of the provider, and nothing made up in its place.
pub record IsUnavailable (reason : String) (calls : ℕ) (response : AdapterResponse) : Type 0 where
  pub status : response.status ≡ AdapterStatus.unavailable
  pub rows : response.rows ≡ []
  pub metadata : response.metadata ≡ end
  pub reason_code : response.reason_code ≡ some reason
  pub network_calls : response.controls.network_calls ≡ calls
  pub synthetic : response.synthetic ≡ false

-- How a call of invoke over a LiveTransport ends, by the request and the plan it admits.
pub data Gated (destination : LiveDestination) (gates : LiveEntryGates) (backend : LiveBackend)
    : Option (ValidatedRequest × QueryPlan) → Outcome → Type 0 where
  denied : Gated destination gates backend none request_rejected
  -- the backend was not called
  closed :
      (response : AdapterResponse) (plan : QueryPlan) (validated : ValidatedRequest)
      → ready gates ≡ false
      → (live_execute destination gates backend plan validated).1 ≡ []
      → IsUnavailable "live_entry_gates_closed" 0 response
      → Gated destination gates backend (some (validated, plan)) (answered response)
  -- the backend raised, or returned something that is no result
  failed :
      (response : AdapterResponse) (plan : QueryPlan) (validated : ValidatedRequest)
      → ready gates ≡ true
      → ((backend destination plan validated ≡ raised)
          × IsUnavailable "live_transport_unavailable" 1 response)
        ⊎ ((backend destination plan validated ≡ foreign)
            × IsUnavailable "live_transport_invalid_response" 1 response)
      → Gated destination gates backend (some (validated, plan)) (answered response)
  -- the rows are the backend's, or none
  served :
      (response : AdapterResponse) (plan : QueryPlan) (validated : ValidatedRequest)
      (result : TransportResult)
      → ready gates ≡ true
      → backend destination plan validated ≡ returned_result result
      → (response.rows ≡ []) ⊎ (response.rows ≡ result.rows)
      → response.controls.network_calls ≡ result.network_calls
      → response.synthetic ≡ false
      → Gated destination gates backend (some (validated, plan)) (answered response)

-- The response to a result of a transport that is not synthetic.
abbrev settled : QueryPlan → ValidatedRequest → TransportResult → Option AdapterResponse
settled plan validated result = answer_of false plan validated result

settled-IsUnavailable :
    (plan : QueryPlan) (validated : ValidatedRequest) (reason : String) (calls : ℕ)
    (startup metadata : Bool) (response : AdapterResponse)
    → settled plan validated (unavailable_result reason calls startup metadata) ≡ some response
    → IsUnavailable reason calls response
unfolding answer_of validate_transport_result response_of metadata_payload response_with
settled-IsUnavailable plan validated reason calls startup metadata response h =
    subst (IsUnavailable reason calls) (some_injective h) (record {
      status = refl;
      rows = refl;
      metadata = refl;
      reason_code = refl;
      network_calls = refl;
      synthetic = refl;
    })

own_rows :
    (plan : QueryPlan) (validated : ValidatedRequest) (result : TransportResult)
    (response : AdapterResponse)
    → IsAnswer false plan validated result response
    → (response.rows ≡ []) ⊎ (response.rows ≡ result.rows)
own_rows plan validated result response answer = elim answer.rows [
  | inl e ↦ inl e
  | inr (e, _) ↦ inr e
]

module _ (destination : LiveDestination) (gates : LiveEntryGates) (backend : LiveBackend) where
  live_execute-closed :
      (plan : QueryPlan) (validated : ValidatedRequest)
      → ready gates ≡ false
      → live_execute destination gates backend plan validated
        ≡ (unavailable_result "live_entry_gates_closed" 0 false false, [])
  unfolding live_execute
  live_execute-closed plan validated h = rw h refl

  live_execute-ready :
      (plan : QueryPlan) (validated : ValidatedRequest)
      → ready gates ≡ true
      → live_execute destination gates backend plan validated
        ≡ (live_result gates (backend destination plan validated), (plan, validated) ∷ [])
  unfolding live_execute
  live_execute-ready plan validated h = rw h refl

  reply-Gated :
      (plan : QueryPlan) (validated : ValidatedRequest) (reply : Reply) (response : AdapterResponse)
      → ready gates ≡ true
      → backend destination plan validated ≡ reply
      → settled plan validated (live_result gates reply) ≡ some response
      → Gated destination gates backend (some (validated, plan)) (answered response)
  unfolding live_result
  reply-Gated plan validated raised response on e h =
      failed response plan validated on
        (inl (e, settled-IsUnavailable plan validated _ 1 true _ response h))
  reply-Gated plan validated foreign response on e h =
      failed response plan validated on
        (inr (e, settled-IsUnavailable plan validated _ 1 true _ response h))
  reply-Gated plan validated (returned_result result) response on e h =
      let answer = answer_of-IsAnswer false plan validated result response h in
      served response plan validated result on e (own_rows plan validated result response answer)
        answer.network_calls answer.synthetic_flag

  answer-Gated :
      (plan : QueryPlan) (validated : ValidatedRequest) (response : AdapterResponse)
      → settled plan validated (live_execute destination gates backend plan validated).0
        ≡ some response
      → Gated destination gates backend (some (validated, plan)) (answered response)
  answer-Gated plan validated response h = elim (Bool-cases (ready gates)) [
    | inl on ↦ reply-Gated plan validated _ response on refl (
        subst (λ r. settled plan validated r.0 ≡ some response)
          (live_execute-ready plan validated on) h)
    | inr shut ↦
        let e = live_execute-closed plan validated shut in
        closed response plan validated shut (ap (λ r. r.1) e) (
          settled-IsUnavailable plan validated _ 0 false false response
            (subst (λ r. settled plan validated r.0 ≡ some response) e h))
  ]

  module _ (x : Patterns) (policy : FrozenKingdeePolicy) (frozen : IsFrozen policy) where
    conclude-Gated :
        (tool : String) (plan : QueryPlan) (validated : ValidatedRequest)
        (o : Option AdapterResponse) (log : Log)
        → ((response : AdapterResponse) × (o ≡ some response))
        → settled plan validated (live_execute destination gates backend plan validated).0 ≡ o
        → Gated destination gates backend
            (some (validated, plan))
            (conclude x policy (live_transport destination gates backend) tool validated o log).0
    unfolding conclude
    conclude-Gated tool plan validated none log (_, e) h = cc
    conclude-Gated tool plan validated (some response) log _ h =
        answer-Gated plan validated response h

    respond-Gated :
        (tool : String) (o : Option (ValidatedRequest × QueryPlan)) (log : Log)
        → ((validated : ValidatedRequest) (plan : QueryPlan)
            → o ≡ some (validated, plan)
            → IsTyped plan)
        → Gated destination gates backend o
            (respond x policy (live_transport destination gates backend) tool o log).0
    unfolding respond settle live_transport
    respond-Gated tool none log typed = denied
    respond-Gated tool (some (validated, plan)) log typed =
        let result = (live_execute destination gates backend plan validated).0 in
        conclude-Gated tool plan validated (settled plan validated result) _
          (answer_of-given false plan validated result (typed validated plan refl)) refl

    admitted-IsTyped :
        (tool : String) (request : Fields) (auth : AuthContext) (validated : ValidatedRequest)
        (plan : QueryPlan)
        → admitted x policy (live_transport destination gates backend) tool request auth
          ≡ some (validated, plan)
        → IsTyped plan
    unfolding admitted
    admitted-IsTyped tool request auth validated plan h0 =
        let (v, _, h1) = bind-some (validate_request x policy request auth) _ h0 in
        let (p, planned, h2) = bind-some (plan_for x policy tool v.logical_object) _ h1 in
        subst (λ r. IsTyped r.1) (some_injective h2)
          (plan_for-IsTyped x policy frozen tool v.logical_object p planned)

    -- Over a LiveTransport and with a policy that load returned, a call of invoke raises neither an
    -- exception of the transport nor the ValueError of a zip. It raises RequestRejected where it
    -- admits no request, and otherwise it is answered by a response that is not synthetic, in one
    -- of three ways. Where an entry gate is closed, the backend is not called and the response is
    -- unavailable, empty and counts no network call. Where the gates are open and the backend,
    -- given the admitted request and its plan, raises, or returns no TransportResult, the response
    -- is unavailable and empty and counts one network call. Otherwise its rows are those the
    -- backend returned, or none, and it counts the network calls that the backend's result counts.
    pub invoke-Gated :
        (tool : String) (request : Fields) (auth : AuthContext) (log : Log)
        → Gated destination gates backend
            (admitted x policy (live_transport destination gates backend) tool request auth)
            (invoke x policy (live_transport destination gates backend) tool request auth log).0
    unfolding invoke
    invoke-Gated tool request auth log =
        respond-Gated tool _ log (admitted-IsTyped tool request auth)
