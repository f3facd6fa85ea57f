-- ===== src/Tasks/Readings.antt =====
-- services/agent_runtime/proposals.py: what from_execution reads from a proposal document.
use esan_gbos.Prelude.{String, ◌&&◌, Option, some, List, opt_beq, ◌==◌, string_eq, nat_eq, ref_eq}
use esan_gbos.Prelude.Int.{ℤ}
use esan_gbos.Prelude.Json.{Json, obj, get}
use esan_gbos.Tasks.Models.{AgentTaskMetadata}
use esan_gbos.Tasks.Proposals.{Externals}
use esan_gbos.Tasks.Documents.{
  as_str, as_obj, as_arr, as_int, texts, fact_refs_of, require, ◌>>=◌, ◌>>◌,
}

-- The local variables of from_execution.
pub record ProposalParts : Type 0 where
  pub action_type : String
  pub proposal_id : String
  pub evidence_refs : List String
  pub fact_version_refs : List (String × ℤ)
  pub payload_digest : String
  pub created_at_value : String
  pub target_revision : ℤ

module _ (x : Externals) where
  -- What from_execution reads from the document; `none` is a ValidationError.
  unfoldable pub read_proposal : AgentTaskMetadata → Json → Option ProposalParts
  read_proposal task value = do
    document ← as_obj (some value)
    require (
        opt_beq (as_str (get "site_id" document)) (some task.site_id)
        && (opt_beq (as_str (get "target_ref" document)) (some task.subject_ref)
            && opt_beq (as_str (get "status" document)) (some "proposed")))
    action_type ← as_str (get "action_type" document)
    proposal_id ← as_str (get "action_proposal_id" document)
    payload ← as_obj (get "payload" document)
    evidence_refs ← texts (← as_arr (get "evidence_refs" document))
    fact_items ← as_arr (get "fact_version_refs" document)
    payload_digest ← as_str (get "payload_digest" document)
    created_at_value ← as_str (get "created_at" document)
    target_revision ← as_int (get "target_revision" document)
    require (x.payload_digest (obj payload) == payload_digest)
    fact_version_refs ← fact_refs_of fact_items
    some (record {
      action_type = action_type;
      proposal_id = proposal_id;
      evidence_refs = evidence_refs;
      fact_version_refs = fact_version_refs;
      payload_digest = payload_digest;
      created_at_value = created_at_value;
      target_revision = target_revision;
    })
