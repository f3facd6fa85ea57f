-- ===== src/Agents/Contained.antt =====
-- services/agent_runtime/worker.py: which exceptions the worker catches, and where others come from.
use esan_gbos.Prelude.{
  Bool, true, false, not, Option, none, some, ◌≡◌, ◌≢◌, ◌⊎◌, inl, inr, refl, ap, subst, pair_eq,
  triple_eq, nat_eq, ref_eq, string_eq, is_unique,
}
use esan_gbos.Prelude.Dict.{lookup}
use esan_gbos.Tasks.Errors.{
  Error, key_error, value_error, lease_conflict, validation_error, idempotency_conflict,
  task_not_found,
}
use esan_gbos.Tasks.Proposals.{AgentExecutionResult}
use esan_gbos.Tasks.Claim.{AgentTaskClaim}
use esan_gbos.Agents.Worker.{AgentWorker, Round, prepare, is_caught, raised_by}
use esan_gbos.Agents.Inputs.{
  Exception, queue, mismatch, Try, threw, gave, ◌>>=◌, throw_if, or_throw,
  agent_kind_from_task_type, agent_kind_by_task_type, AgentInput, check_input, resolution_request,
  is_context_of, input_of,
}

-- Where an exception of a round comes from, when it is not the worker's own: the resolver or the
-- executor raised it.
pub data Raised (w : AgentWorker) (claim : AgentTaskClaim) (round : Round) (e : Exception)
    : Type 0 where
  by_resolver : w.resolve (resolution_request claim) ≡ threw e → Raised w claim round e
  by_executor :
      (input : AgentInput)
      → prepare w claim ≡ gave input
      → w.execute input round.executed_at ≡ threw e
      → Raised w claim round e

-- The worker catches an exception, or the resolver or the executor raised it.
abbrev pub IsKnown : AgentWorker → AgentTaskClaim → Round → Exception → Type 0
IsKnown w claim round e = (is_caught e ≡ true) ⊎ Raised w claim round e

abbrev Caught : {A : Type 0} → Try A → Type 0
Caught (threw e) = is_caught e ≡ true
Caught (gave _) = Unit

try_rule :
    {A B : Type 0} (m : Try A) (f : A → Try B)
    → ((e : Exception) → m ≡ threw e → is_caught e ≡ true)
    → ((a : A) → Caught (f a))
    → Caught (m >>= f)
try_rule (threw e) f bad good = bad e refl
try_rule (gave a) f bad good = good a

thrown : {A : Type 0} (m : Try A) → Caught m → (e : Exception) → m ≡ threw e → is_caught e ≡ true
thrown m h e same = subst Caught same h

-- What a chain raises, its first part raised, or what follows.
first_thrown :
    {A B : Type 0} (m : Try A) (f : A → Try B) (e : Exception)
    → ((a : A) → Caught (f a))
    → m >>= f ≡ threw e
    → (is_caught e ≡ true) ⊎ (m ≡ threw e)
first_thrown (threw d) f e good h =
    inr (ap threw (ap (λ r. elim r [ threw raised ↦ raised | gave _ ↦ d ]) h))
first_thrown (gave a) f e good h = inl (thrown (f a) (good a) e h)

throw_if-Caught : (b : Bool) (e : Exception) → is_caught e ≡ true → Caught (throw_if b e)
throw_if-Caught true e h = h
throw_if-Caught false e h = tt

or_throw-Caught :
    {A : Type 0} (o : Option A) (e : Exception) → is_caught e ≡ true → Caught (or_throw o e)
or_throw-Caught none e h = h
or_throw-Caught (some _) e h = tt

check_input-Caught : (input : AgentInput) → Caught (check_input input)
check_input-Caught input =
    try_rule (throw_if (not (is_unique input.evidence_refs)) _) _
      (thrown _ (throw_if-Caught (not (is_unique input.evidence_refs)) _ refl))
      λ _.
        try_rule (throw_if (not (is_unique input.fact_version_refs)) _) _
          (thrown _ (throw_if-Caught (not (is_unique input.fact_version_refs)) _ refl))
          λ _. throw_if-Caught (not (is_unique input.requested_tools)) _ refl

-- Between a claim and the executor only the resolver raises what the worker may not catch.
pub prepare-IsKnown :
    (w : AgentWorker) (claim : AgentTaskClaim) (round : Round) (e : Exception)
    → prepare w claim ≡ threw e
    → IsKnown w claim round e
unfolding prepare
prepare-IsKnown w claim round e h =
    elim (first_thrown (w.resolve (resolution_request claim)) _ e
      (λ context.
        try_rule (throw_if (not (is_context_of (resolution_request claim) context)) mismatch) _
          (thrown _ (throw_if-Caught _ mismatch refl))
          λ _.
            try_rule (agent_kind_from_task_type claim.metadata.agent_type) _
              (thrown _
                (or_throw-Caught (lookup claim.metadata.agent_type agent_kind_by_task_type) _ refl))
              λ kind.
                try_rule (check_input (input_of claim kind context)) _
                  (thrown _ (check_input-Caught (input_of claim kind context))) λ _. tt)
      h) [ inl caught ↦ inl caught | inr same ↦ inr (by_resolver same) ]

pub faultless-caught : (e : Error) → e ≢ key_error → is_caught (queue e) ≡ true
faultless-caught validation_error h = refl
faultless-caught idempotency_conflict h = refl
faultless-caught lease_conflict h = refl
faultless-caught task_not_found h = refl
faultless-caught key_error h = absurd (h refl)
faultless-caught value_error h = refl

pub raised_by-caught :
    (w : AgentWorker) (result : AgentExecutionResult) (e : Error)
    → e ≢ key_error
    → is_caught (raised_by w result e) ≡ true
raised_by-caught w result validation_error h = refl
raised_by-caught w result idempotency_conflict h = refl
raised_by-caught w result lease_conflict h = refl
raised_by-caught w result task_not_found h = refl
raised_by-caught w result key_error h = absurd (h refl)
raised_by-caught w result value_error h = refl
