-- ===== src/Kingdee/Plans.antt =====
-- services/kingdee_adapter/policy.py: what plan_for gives under a policy that load returned.
use esan_gbos.Prelude.{
  length, String, Bool, true, false, not, some, List, [], ◌∷◌, ◌≡◌, ◌⊎◌, inl, inr, refl, sym, ap,
  ◌∙◌, subst, arith, contains, string_eq, nat_eq, ◌==◌, eq_of_==, all, any, Bool-cases,
}
use esan_gbos.Prelude.Dict.{lookup}
use esan_gbos.Prelude.Tables.{contains-all}
use esan_gbos.Tasks.Documents.{bind-some, require-some, some_injective}
use esan_gbos.Kingdee.Models.{QueryPlan}
use esan_gbos.Kingdee.Contracts.{FrozenKingdeePolicy, ends_with, required_forbidden}
use esan_gbos.Kingdee.Policy.{Patterns, is_mutation_shaped, plan_from, plan_for}
use esan_gbos.Kingdee.Frozen.{IsFrozen}

-- A plan that plan_for gives for a tool and an object.
pub record IsReadOnly (x : Patterns) (policy : FrozenKingdeePolicy) (tool logical_object : String)
    (plan : QueryPlan) : Type 0 where
  pub about : plan.logical_object ≡ logical_object
  pub unfiltered : plan.filters ≡ []
  pub harmless : all (λ token. not (contains token required_forbidden)) (x.tokens tool) ≡ true
  pub chosen :
      ((tool ≡ "metadata.get") × (plan.tool_name ≡ tool))
      ⊎ ((lookup tool policy.tool_to_object ≡ some logical_object)
          × (ends_with tool ".get" ≡ true)
          × (lookup plan.tool_name policy.tool_to_object ≡ some logical_object))

-- A token that is not forbidden is not among those that must be.
tokens-harmless :
    (forbidden tokens : List String)
    → all (λ token. contains token forbidden) required_forbidden ≡ true
    → any (λ token. contains token forbidden) tokens ≡ false
    → all (λ token. not (contains token required_forbidden)) tokens ≡ true
tokens-harmless forbidden [] h clean = refl
tokens-harmless forbidden (token ∷ tokens) h clean =
    let rest : all (λ token. not (contains token required_forbidden)) tokens ≡ true =
      tokens-harmless forbidden tokens h (ground arith) in
    elim (Bool-cases (contains token required_forbidden)) [
      | inl e ↦
          let out = contains-all (λ t. contains t forbidden) token required_forbidden e h in
          ground arith
      | inr e ↦ ground arith
    ]

-- The lists of a plan that `zip(..., strict=True)` walks are equally long.
abbrev pub IsTyped : QueryPlan → Type 0
IsTyped plan =
    (length plan.source_fields ≡ length plan.fields)
    × (length plan.field_types ≡ length plan.fields)

module _ (x : Patterns) (policy : FrozenKingdeePolicy) (frozen : IsFrozen policy) where
  plan_from-tool :
      (b : Bool) (base plan : QueryPlan) (tool logical_object : String)
      → (tool == "metadata.get") ≡ b
      → lookup logical_object policy.object_plans ≡ some base
      → plan_from x policy b base tool logical_object ≡ some plan
      → (plan.logical_object ≡ base.logical_object)
        × (plan.filters ≡ base.filters)
        × (((tool ≡ "metadata.get") × (plan.tool_name ≡ tool))
            ⊎ ((lookup tool policy.tool_to_object ≡ some logical_object)
                × (ends_with tool ".get" ≡ true)
                × (lookup plan.tool_name policy.tool_to_object ≡ some logical_object)))
  unfolding plan_from
  plan_from-tool true base plan tool logical_object e at h =
      let same = some_injective h in
      (
        ap (λ p. p.logical_object) (sym same),
        ap (λ p. p.filters) (sym same),
        inl (eq_of_== tool "metadata.get" e, ap (λ p. p.tool_name) (sym same)),
      )
  plan_from-tool false base plan tool logical_object e at h0 =
      let (expected, mapped, h1) = bind-some (lookup tool policy.tool_to_object) _ h0 in
      let (is_it, h2) = require-some (expected == logical_object) _ h1 in
      let same = some_injective h2 in
      let here : lookup tool policy.tool_to_object ≡ some logical_object =
        mapped ∙ ap some (eq_of_== expected logical_object is_it) in
      (
        ap (λ p. p.logical_object) (sym same),
        ap (λ p. p.filters) (sym same),
        inr (
          here,
          frozen.reads tool logical_object here,
          subst (λ p. lookup p.tool_name policy.tool_to_object ≡ some logical_object) same
              (frozen.plans logical_object base at).tool,
        ),
      )

  -- With a policy that load returned, a plan that plan_for gives is for the object that was asked
  -- for and has no filter, no part of the tool's name is an operation that must be forbidden, and
  -- the tool is metadata.get or a .get tool that the contract lists for that object, as is then
  -- the tool that the plan names.
  pub plan_for-IsReadOnly :
      (tool logical_object : String) (plan : QueryPlan)
      → plan_for x policy tool logical_object ≡ some plan
      → IsReadOnly x policy tool logical_object plan
  unfolding plan_for
  plan_for-IsReadOnly tool logical_object plan h0 =
      let (shape, h1) = require-some (not (is_mutation_shaped x policy tool)) _ h0 in
      let (base, at, h2) = bind-some (lookup logical_object policy.object_plans) _ h1 in
      let planned = frozen.plans logical_object base at in
      let (about, unfiltered, chosen) =
        plan_from-tool (tool == "metadata.get") base plan tool logical_object refl at h2 in
      record {
        about = about ∙ planned.about;
        unfiltered = unfiltered ∙ planned.unfiltered;
        harmless =
            tokens-harmless policy.forbidden_operation_tokens (x.tokens tool) frozen.forbidden
              (ground arith);
        chosen = chosen;
      }

  plan_from-IsTyped :
      (b : Bool) (base plan : QueryPlan) (tool logical_object : String)
      → IsTyped base
      → plan_from x policy b base tool logical_object ≡ some plan
      → IsTyped plan
  unfolding plan_from
  plan_from-IsTyped true base plan tool logical_object typed h =
      subst IsTyped (some_injective h) typed
  plan_from-IsTyped false base plan tool logical_object typed h0 =
      let (expected, _, h1) = bind-some (lookup tool policy.tool_to_object) _ h0 in
      let (_, h2) = require-some (expected == logical_object) _ h1 in
      subst IsTyped (some_injective h2) typed

  -- A plan of the policy has a source field and a type for each of its fields.
  pub plan_for-IsTyped :
      (tool logical_object : String) (plan : QueryPlan)
      → plan_for x policy tool logical_object ≡ some plan
      → IsTyped plan
  unfolding plan_for
  plan_for-IsTyped tool logical_object plan h0 =
      let (_, h1) = require-some (not (is_mutation_shaped x policy tool)) _ h0 in
      let (base, at, h2) = bind-some (lookup logical_object policy.object_plans) _ h1 in
      plan_from-IsTyped (tool == "metadata.get") base plan tool logical_object
        (frozen.plans logical_object base at).typed h2
