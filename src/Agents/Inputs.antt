-- ===== src/Agents/Inputs.antt =====
-- services/agent_runtime/worker.py and agents.py: what the worker makes of a claim, up to the
-- executor's input, and the exceptions it knows.
use esan_gbos.Prelude.{
  ℕ, String, Bool, true, false, not, ◌&&◌, Option, none, some, List, [], ◌∷◌, ◌==◌, string_eq,
  nat_eq, ref_eq, list_beq, is_unique,
}
use esan_gbos.Prelude.Dict.{Dict, lookup}
use esan_gbos.Tasks.Errors.{Error}
use esan_gbos.Tasks.Claim.{AgentTaskClaim}

-- The exceptions that reach the worker: those of the queue, a ValueError with its text, and the
-- exceptions of agents.py. `fault` is any other one.
pub data Exception : Type 0 where
  queue : Error → Exception
  value : String → Exception
  execution : String → Exception
  budget mismatch fault : Exception

pub data Try (A : Type 0) : Type 0 where
  threw : Exception → Try A
  gave : A → Try A

infixl 5 ◌>>=◌ ◌>>◌
abbrev pub ◌>>=◌ : {A B : Type 0} → Try A → (A → Try B) → Try B
threw e >>= f = threw e
gave a >>= f = f a

abbrev pub ◌>>◌ : {B : Type 0} → Try (Unit {0}) → Try B → Try B
m >> k = m >>= λ _. k

abbrev pub throw_if : Bool → Exception → Try (Unit {0})
throw_if false e = gave tt
throw_if true e = threw e

pub data AgentKind : Type 0 where
  sales purchase product ceo : AgentKind

-- _AGENT_KIND_BY_TASK_TYPE
unfoldable pub agent_kind_by_task_type : Dict String AgentKind
agent_kind_by_task_type =
    ("sales", sales) ∷ ("purchase", purchase) ∷ ("product_sample", product) ∷ ("ceo", ceo) ∷ []

abbrev pub or_throw : {A : Type 0} → Option A → Exception → Try A
or_throw none e = threw e
or_throw (some a) e = gave a

-- _agent_kind_from_task_type
abbrev pub agent_kind_from_task_type : String → Try AgentKind
agent_kind_from_task_type task_agent_type =
    or_throw (lookup task_agent_type agent_kind_by_task_type)
      (execution "unsupported agent task type")

pub record ContextResolutionRequest : Type 0 where
  pub site_id : String
  pub task_id : String
  pub subject_type : String
  pub subject_ref : String
  pub evidence_refs : List String
  pub fact_version_refs : List (String × ℕ)

pub record ResolvedAgentContext : Type 0 where
  pub site_id : String
  pub subject_type : String
  pub subject_ref : String
  pub evidence_refs : List String
  pub fact_version_refs : List (String × ℕ)
  pub raw_context : String

-- agents.py: AgentInput
pub record AgentInput : Type 0 where
  pub task_id : String
  pub site_id : String
  pub processing_purpose : String
  pub agent_kind : AgentKind
  pub requested_by : String
  pub subject_type : String
  pub subject_ref : String
  pub subject_revision : ℕ
  pub evidence_refs : List String
  pub fact_version_refs : List (String × ℕ)
  pub decision_ref : String
  pub correlation_id : String
  pub raw_context : String
  pub expected_action_type : String
  pub candidate_refs : List String
  pub requested_tools : List String

-- AgentInput.__post_init__
abbrev pub check_input : AgentInput → Try (Unit {0})
check_input input = do
  throw_if (not (is_unique input.evidence_refs)) (value "evidence_refs must be unique")
  throw_if (not (is_unique input.fact_version_refs)) (value "fact_version_refs must be unique")
  throw_if (not (is_unique input.requested_tools)) (value "requested_tools must be unique")

abbrev pub resolution_request : AgentTaskClaim → ContextResolutionRequest
resolution_request claim = record {
  site_id = claim.metadata.site_id;
  task_id = claim.metadata.task_id;
  subject_type = claim.metadata.subject_type;
  subject_ref = claim.metadata.subject_ref;
  evidence_refs = claim.payload.evidence_refs;
  fact_version_refs = claim.payload.fact_version_refs;
}

-- The negation of the condition of _validate_context.
abbrev pub is_context_of : ContextResolutionRequest → ResolvedAgentContext → Bool
is_context_of request context =
    context.site_id == request.site_id
    && (context.subject_type == request.subject_type
        && (context.subject_ref == request.subject_ref
            && (list_beq context.evidence_refs request.evidence_refs
                && list_beq context.fact_version_refs request.fact_version_refs)))

abbrev pub input_of : AgentTaskClaim → AgentKind → ResolvedAgentContext → AgentInput
input_of claim kind context = record {
  task_id = claim.metadata.task_id;
  site_id = claim.metadata.site_id;
  processing_purpose = claim.metadata.processing_purpose;
  agent_kind = kind;
  requested_by = claim.payload.requested_by;
  subject_type = claim.metadata.subject_type;
  subject_ref = claim.metadata.subject_ref;
  subject_revision = claim.payload.subject_revision;
  evidence_refs = claim.payload.evidence_refs;
  fact_version_refs = claim.payload.fact_version_refs;
  decision_ref = claim.payload.decision_ref;
  correlation_id = claim.metadata.correlation_id;
  raw_context = context.raw_context;
  expected_action_type = claim.payload.expected_action_type;
  candidate_refs = claim.payload.candidate_refs;
  requested_tools = [];
}
