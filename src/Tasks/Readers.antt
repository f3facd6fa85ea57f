-- ===== src/Tasks/Readers.antt =====
-- services/agent_runtime/repository.py: the methods that only read.
use esan_gbos.Prelude.{
  ℕ, String, Bool, ◌&&◌, ◌||◌, Option, none, some, List, [], ◌∷◌, if◌then◌else◌, ◌==◌, string_eq,
  nat_eq, pair_eq, triple_eq, ltb, keep,
}
use esan_gbos.Prelude.Dict.{lookup, values}
use esan_gbos.Tasks.Models.{AgentTaskMetadata, TimelineEventMetadata, DeadLetterMetadata}
use esan_gbos.Tasks.Proposals.{
  ModelInvocationRecord, ActionProposalRecord, MaterializationOutboxRecord,
}
use esan_gbos.Tasks.Repository.{Repository}
use esan_gbos.Tasks.Claim.{str_leb}

-- get, timeline, dead_letter, get_proposal and get_materialization
unfoldable pub get_task : String → String → Repository → Option AgentTaskMetadata
get_task site_id task_id s = lookup (site_id, task_id) s.tasks

unfoldable pub get_timeline : String → String → Repository → List TimelineEventMetadata
get_timeline site_id task_id s = elim (lookup (site_id, task_id) s.timeline) [
  | none ↦ []
  | some events ↦ events
]

unfoldable pub get_dead_letter : String → String → Repository → Option DeadLetterMetadata
get_dead_letter site_id task_id s = lookup (site_id, task_id) s.dead_letters

unfoldable pub get_proposal : String → String → ℕ → Repository → Option ActionProposalRecord
get_proposal site_id task_id attempt s = lookup (site_id, task_id, attempt) s.proposals

unfoldable pub get_materialization :
    String → String → ℕ → Repository → Option MaterializationOutboxRecord
get_materialization site_id task_id attempt s =
    lookup (site_id, task_id, attempt) s.materializations

-- The order of the pairs (started_at, invocation_id).
abbrev pub comes_first : ModelInvocationRecord → ModelInvocationRecord → Bool
comes_first a b =
    ltb a.started_at b.started_at
    || (a.started_at == b.started_at && str_leb a.invocation_id b.invocation_id)

abbrev pub place_invocation :
    ModelInvocationRecord → List ModelInvocationRecord → List ModelInvocationRecord
place_invocation a [] = a ∷ []
place_invocation a (b ∷ bs) = if comes_first a b then a ∷ b ∷ bs else b ∷ place_invocation a bs

unfoldable pub sort_invocations : List ModelInvocationRecord → List ModelInvocationRecord
sort_invocations [] = []
sort_invocations (a ∷ rest) = place_invocation a (sort_invocations rest)

-- invocations
unfoldable pub get_invocations : String → Repository → List ModelInvocationRecord
get_invocations site_id s =
    sort_invocations (keep (λ record_. record_.site_id == site_id) (values s.invocations))
