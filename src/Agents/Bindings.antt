-- ===== src/Agents/Bindings.antt =====
-- services/agent_runtime/worker.py: what the executor is given.
use esan_gbos.Prelude.{Bool, true, false, not, Option, none, some, ◌≡◌, refl, ap, string_eq, ref_eq}
use esan_gbos.Prelude.Dict.{lookup}
use esan_gbos.Tasks.Claim.{AgentTaskClaim}
use esan_gbos.Agents.Worker.{AgentWorker}
use esan_gbos.Agents.Inputs.{
  Exception, Try, threw, gave, ◌>>=◌, ◌>>◌, throw_if, or_throw, AgentKind, agent_kind_by_task_type,
  ResolvedAgentContext, AgentInput, resolution_request, input_of,
}

-- What a chain of steps that gives a value went through.
pub bind-gave :
    {A B : Type 0} (m : Try A) (f : A → Try B) {b : B}
    → m >>= f ≡ gave b
    → (a : A) × (m ≡ gave a) × (f a ≡ gave b)
bind-gave (threw e) f h = cc
bind-gave (gave a) f h = (a, refl, h)

pub throw_if-gave :
    {B : Type 0} (b : Bool) (e : Exception) (k : Try B) {v : B}
    → throw_if b e >> k ≡ gave v
    → (b ≡ false) × (k ≡ gave v)
throw_if-gave false e k h = (refl, h)
throw_if-gave true e k h = cc

pub gave_injective : {A : Type 0} {a b : A} → gave a ≡ gave b → a ≡ b
gave_injective {A} {a} h = ap (value_or a) h
  where
    value_or : {A : Type 0} → A → Try A → A
    value_or d (threw _) = d
    value_or d (gave b) = b

-- The executor's input is the claimed task, with the text of a context that is resolved for it.
pub record IsBound (w : AgentWorker) (claim : AgentTaskClaim) (input : AgentInput) : Type 0 where
  pub context : ResolvedAgentContext
  pub resolved : w.resolve (resolution_request claim) ≡ gave context
  pub site : context.site_id ≡ claim.metadata.site_id
  pub subject :
      (context.subject_type ≡ claim.metadata.subject_type)
      × (context.subject_ref ≡ claim.metadata.subject_ref)
  pub evidence : context.evidence_refs ≡ claim.payload.evidence_refs
  pub facts : context.fact_version_refs ≡ claim.payload.fact_version_refs
  pub kind : AgentKind
  pub known : lookup claim.metadata.agent_type agent_kind_by_task_type ≡ some kind
  pub given : input ≡ input_of claim kind context

pub or_throw-gave :
    {A : Type 0} (o : Option A) (e : Exception) {a : A} → or_throw o e ≡ gave a → o ≡ some a
or_throw-gave none e h = cc
or_throw-gave (some b) e h = ap some (gave_injective h)

pub not-false : (b : Bool) → not b ≡ false → b ≡ true
not-false true h = refl
not-false false h = cc
