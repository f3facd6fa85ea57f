-- ===== src/Agents/Executions.antt =====
-- services/agent_runtime/agents.py: what AgentOrchestrator.execute returns.
use esan_gbos.Prelude.{
  true, false, ◌&&◌, some, ◌≡◌, string_eq, nat_eq, pair_eq, ref_eq, ltb, length, contains, all,
}
use esan_gbos.Prelude.Json.{str, obj, get}
use esan_gbos.Tasks.Documents.{is_empty}
use esan_gbos.Guard.Policy as Guard
use esan_gbos.Guard.Policy.{allow, has_forbidden_field, internal_proposals}
use esan_gbos.Agents.Inputs.{AgentInput}
use esan_gbos.Agents.Orchestrator.{
  AgentBudget, Execution, Texts, AgentOrchestrator, profile_of, is_purchase, fits_profile,
  result_payload,
}

module _ (t : Texts) (g : Guard.Externals) (o : AgentOrchestrator) where
  -- A request that the orchestrator takes on.
  pub record IsTaken (request : AgentInput) (limits : AgentBudget) : Type 0 where
    pub short : ltb limits.max_input_chars (t.chars request.raw_context) ≡ false
    pub steps : ltb limits.max_steps 3 ≡ false
    pub profile : fits_profile (profile_of request.agent_kind) request ≡ true
    pub evidence :
        (is_empty request.evidence_refs ≡ false)
        × (all (λ r. contains r o.known_evidence_refs) request.evidence_refs ≡ true)
    pub facts :
        (is_empty request.fact_version_refs ≡ false)
        × (all (λ r. contains r o.known_fact_refs) request.fact_version_refs ≡ true)
    pub subject : contains (request.subject_type, request.subject_ref) o.known_subject_refs ≡ true
    pub candidates : is_purchase request.agent_kind && ltb (length request.candidate_refs) 2 ≡ false

  -- What an execution guarantees.
  pub record IsGuarded (request : AgentInput) (limits : AgentBudget) (e : Execution) : Type 0 where
    pub taken : IsTaken request limits
    pub guarded : (e.pre_guard.outcome ≡ allow) × (e.post_guard.outcome ≡ allow)
    pub internal : contains request.expected_action_type internal_proposals ≡ true
    pub clean : has_forbidden_field g (result_payload request e.action_proposal) ≡ false
    pub toolless : e.tool_calls ≡ 0
    pub within : ltb limits.max_output_chars (t.json_chars (obj e.action_proposal)) ≡ false
    pub about :
        (get "action_type" e.action_proposal ≡ some (str request.expected_action_type))
        × (get "site_id" e.action_proposal ≡ some (str request.site_id))
        × (get "target_ref" e.action_proposal ≡ some (str request.subject_ref))
        × (get "status" e.action_proposal ≡ some (str "proposed"))
