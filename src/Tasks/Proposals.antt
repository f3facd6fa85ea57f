-- ===== src/Tasks/Proposals.antt =====
-- services/agent_runtime/proposals.py (up to the outbox record) and the fields of
-- services/agent_runtime/invocations.py that the queue reads.
use esan_gbos.Prelude.{
  ℕ, String, Bool, true, false, ◌&&◌, Option, List, [], ◌∷◌, list_beq, ◌==◌, string_eq, nat_eq,
  ref_eq,
}
use esan_gbos.Prelude.Int.{ℤ, int_beq}
use esan_gbos.Prelude.Json.{Json, json_beq}
use esan_gbos.Tasks.Models.{Datetime}

-- ModelInvocationRecord. `details` stands for the fields that the queue only compares as a whole.
pub record ModelInvocationRecord : Type 0 where
  pub invocation_id : String
  pub site_id : String
  pub request_id : String
  pub evidence_refs : List String
  pub started_at : ℕ
  pub tool_call_count : ℕ
  pub external_send_count : ℕ
  pub idempotency_key : String
  pub details : String

-- The parts of an AgentExecutionResult that completion reads.
pub record AgentExecutionResult : Type 0 where
  pub action_proposal : Json
  pub invocations : List ModelInvocationRecord

-- What the standard library computes for the code: `normalized` folds a key by two regular
-- expressions, `casefold` is str.casefold, `compact` takes spaces, underscores and hyphens out, two
-- regular expressions find personal data and digests, SHA-256 runs over canonical JSON, and
-- datetime.fromisoformat reads a text, `none` where it raises ValueError.
pub record Externals : Type 0 where
  pub normalized : String → String
  pub casefold : String → String
  pub compact : String → String
  pub has_direct_pii : String → Bool
  pub is_digest : String → Bool
  pub payload_digest : Json → String
  pub bundle_digest : String → ℕ → Json → List ModelInvocationRecord → String
  pub from_isoformat : String → Option Datetime

pub data MaterializationStatus : Type 0 where
  pending running succeeded retry dead_letter : MaterializationStatus

-- The proposal's key `proposal:{task_id}:{attempt}` is kept as the pair that it prints.
pub record ActionProposalRecord : Type 0 where
  pub proposal_id : String
  pub site_id : String
  pub idempotency_key : String × ℕ
  pub task_id : String
  pub task_attempt : ℕ
  pub action_type : String
  pub status : String
  pub origin : String
  pub review_status : String
  pub subject_type : String
  pub subject_ref : String
  pub subject_revision : ℕ
  pub evidence_refs : List String
  pub fact_version_refs : List (String × ℤ)
  pub invocation_ids : List String
  pub payload_digest : String
  pub bundle_digest : String
  pub document : Json
  pub created_at : ℕ

-- Its identifier, a digest of the site and the proposal, and the lease and receipt fields, which
-- are None when the queue writes it, are left out.
pub record MaterializationOutboxRecord : Type 0 where
  pub proposal_id : String
  pub site_id : String
  pub task_id : String
  pub task_attempt : ℕ
  pub status : MaterializationStatus
  pub origin : String
  pub review_status : String
  pub created_at : ℕ
  pub attempt : ℕ
  pub max_attempts : ℕ
  pub next_attempt_at : Option ℕ
  pub updated_at : Option ℕ

abbrev pub facts_beq : List (String × ℤ) → List (String × ℤ) → Bool
facts_beq [] [] = true
facts_beq ((f, v) ∷ rs) ((g, w) ∷ ss) = f == g && (int_beq v w && facts_beq rs ss)
facts_beq _ _ = false

-- `==` of the dataclass, field by field.
unfoldable pub same_proposal : ActionProposalRecord → ActionProposalRecord → Bool
unfolding json_beq
same_proposal a b =
    a.proposal_id == b.proposal_id
    && (a.site_id == b.site_id
        && (a.idempotency_key == b.idempotency_key
            && (a.task_id == b.task_id
                && (a.task_attempt == b.task_attempt
                    && (a.action_type == b.action_type
                        && (a.status == b.status
                            && (a.origin == b.origin
                                && (a.review_status == b.review_status
                                    && (a.subject_type == b.subject_type
                                        && (a.subject_ref == b.subject_ref
                                            && (a.subject_revision == b.subject_revision
                                                && (list_beq a.evidence_refs b.evidence_refs
                                                    && (facts_beq a.fact_version_refs
                                                          b.fact_version_refs
                                                        && (list_beq a.invocation_ids
                                                            b.invocation_ids
                                                            && (a.payload_digest == b.payload_digest
                                                            && (a.bundle_digest == b.bundle_digest
                                                            && (json_beq a.document b.document
                                                            && a.created_at
                                                            == b.created_at)))))))))))))))))
