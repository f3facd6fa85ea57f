-- ===== src/Guard/Decisions.antt =====
-- What the decisions of ActionGuard (services/action_guard/policy.py) guarantee.
use esan_gbos.Prelude.{
  String, Bool, true, false, not, ◌&&◌, Option, none, some, string_eq, contains, all, ◌≡◌, ◌≢◌, ◌⊎◌,
  inl, inr, refl, sym, ap, ◌∙◌, arith, both,
}
use esan_gbos.Prelude.Dict.{lookup}
use esan_gbos.Prelude.Tables.{contains-all}
use esan_gbos.Prelude.Json.{Fields, get}
use text.Mathlib.Text.{starts_with}
use esan_gbos.Tasks.Models.{Datetime}
use esan_gbos.Guard.Policy.{
  Externals, ActionRequest, allow, require_human, deny, EvaluationPhase, pre_tool, post_result,
  Verdict, read_action_scopes, internal_proposals, human_required_actions, forbidden_exact_actions,
  classify_request, classify_scoped, has_forbidden_field, is_text, is_text_list, is_revision,
  validate_result, settle_verdict, evaluate, is_empty,
}

-- What a request needs to be allowed.
pub record IsAuthorized (request : ActionRequest) : Type 0 where
  pub evidenced : is_empty request.evidence_refs ≡ false
  pub inside : starts_with request.action_type "kingdee." ≡ false
  pub permitted : contains request.action_type forbidden_exact_actions ≡ false
  pub scoped :
      ((scope : String) × (lookup request.action_type read_action_scopes ≡ some scope)
        × (contains scope request.granted_scopes ≡ true))
      ⊎ ((contains request.action_type internal_proposals ≡ true)
          × (contains "gbos-propose" request.granted_scopes ≡ true))

-- What a result needs to be allowed.
pub record IsBound (x : Externals) (request : ActionRequest) (result : Fields) : Type 0 where
  pub shape : has_forbidden_field x result ≡ false
  pub site : is_text (get "site_id" result) request.site_id ≡ true
  pub purpose : is_text (get "processing_purpose" result) request.processing_purpose ≡ true
  pub revision : is_revision x (get "target_revision" result) request.target_revision ≡ true
  pub evidence : is_text_list (get "evidence_refs" result) request.evidence_refs ≡ true

classify_scoped-scope :
    (o : Option String) (request : ActionRequest)
    → lookup request.action_type read_action_scopes ≡ o
    → (classify_scoped o request).0 ≡ allow
    → ((scope : String) × (lookup request.action_type read_action_scopes ≡ some scope)
        × (contains scope request.granted_scopes ≡ true))
      ⊎ ((contains request.action_type internal_proposals ≡ true)
          × (contains "gbos-propose" request.granted_scopes ≡ true))
classify_scoped-scope none request e h = inr (ground arith, ground arith)
classify_scoped-scope (some scope) request e h = inl (scope, e, ground arith)

classify_request-allow :
    (request : ActionRequest) → (classify_request request).0 ≡ allow → IsAuthorized request
unfolding classify_request
classify_request-allow request h = record {
  evidenced = ground arith;
  inside = ground arith;
  permitted = ground arith;
  scoped =
      classify_scoped-scope (lookup request.action_type read_action_scopes) request refl
        (ground arith);
}

validate_result-allow :
    (x : Externals) (request : ActionRequest) (result : Option Fields)
    → (validate_result x request result).0 ≡ allow
    → (payload : Fields) × (result ≡ some payload) × IsBound x request payload
unfolding validate_result
validate_result-allow x request none h = cc
validate_result-allow x request (some payload) h = (
  payload,
  refl,
  record {
    shape = ground arith;
    site = ground arith;
    purpose = ground arith;
    revision = ground arith;
    evidence = ground arith;
  },
)

-- An allowed decision in the post-result phase was an allowed classification and an allowed result.
settled :
    (x : Externals) (phase : EvaluationPhase) (verdict : Verdict) (request : ActionRequest)
    (result : Option Fields)
    → (settle_verdict x phase verdict request result).0 ≡ allow
    → (verdict.0 ≡ allow) × (phase ≡ post_result → (validate_result x request result).0 ≡ allow)
settled x pre_tool (allow, _) request result h = (refl, λ e. cc)
settled x pre_tool (require_human, _) request result h = cc
settled x pre_tool (deny, _) request result h = cc
settled x post_result (allow, _) request result h = (refl, λ _. h)
settled x post_result (require_human, _) request result h = cc
settled x post_result (deny, _) request result h = cc

-- An action is allowed, in either phase, only with evidence, outside kingdee and the forbidden
-- actions, and only as a read whose scope is granted or as an internal proposal with the scope
-- gbos-propose.
pub evaluate-IsAuthorized :
    (x : Externals) (request : ActionRequest) (now : Datetime) (phase : EvaluationPhase)
    (result : Option Fields)
    → (evaluate x request now phase result).outcome ≡ allow
    → IsAuthorized request
unfolding evaluate
evaluate-IsAuthorized x request now phase result h =
    classify_request-allow request (settled x phase (classify_request request) request result h).0

-- After the tool has run, an action is allowed only if there is a result, bound to the request's
-- site, purpose, revision and evidence, in which no key at any depth is forbidden.
pub evaluate-IsBound :
    (x : Externals) (request : ActionRequest) (now : Datetime) (result : Option Fields)
    → (evaluate x request now post_result result).outcome ≡ allow
    → (payload : Fields) × (result ≡ some payload) × IsBound x request payload
unfolding evaluate
evaluate-IsBound x request now result h =
    validate_result-allow x request result
      ((settled x post_result (classify_request request) request result h).1 refl)

no_scope : String → Bool
no_scope action = elim (lookup action read_action_scopes) [ none ↦ true | some _ ↦ false ]

human_apart :
    all
      (λ action. no_scope action && not (contains action internal_proposals))
      human_required_actions
    ≡ true
unfolding no_scope read_action_scopes internal_proposals human_required_actions lookup
human_apart = refl

no_scope-lookup :
    (action scope : String)
    → no_scope action ≡ true
    → lookup action read_action_scopes ≡ some scope
    → ⊥
unfolding no_scope
no_scope-lookup action scope h at = false_is_not_true (sym (ap without at) ∙ h)
  where
    without : Option String → Bool
    without none = true
    without (some _) = false

    false_is_not_true : false ≡ true → ⊥
    false_is_not_true e = cc

-- An action that a human must authorize is never allowed, whatever scopes are granted and
-- whatever result is given, in either phase.
pub human_action-kept :
    (x : Externals) (request : ActionRequest) (now : Datetime) (phase : EvaluationPhase)
    (result : Option Fields)
    → contains request.action_type human_required_actions ≡ true
    → (evaluate x request now phase result).outcome ≢ allow
human_action-kept x request now phase result human h =
    let (unscoped, no_proposal) = both _ _ (
      contains-all (λ action. no_scope action && not (contains action internal_proposals))
        request.action_type human_required_actions human human_apart) in
    let authorized = evaluate-IsAuthorized x request now phase result h in
    elim authorized.scoped [
      | inl (scope, at, _) ↦ no_scope-lookup request.action_type scope unscoped at
      | inr (proposal, _) ↦ cc (proposal, no_proposal)
    ]
