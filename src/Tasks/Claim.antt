-- ===== src/Tasks/Claim.antt =====
-- services/agent_runtime/repository.py: claim, claim_for_execution, and what they share.
-- claim writes the bodies of _reap_expired and _claim_candidates out; claim_for_execution calls
-- them. Both read `reap_expired` and `claim_candidates` here.
use Prim.Native.Nat.{Ordering}
use Prim.Native.String.{compare}
use esan_gbos.Prelude.{
  ℕ, suc, ◌+◌, String, Bool, true, false, ◌&&◌, ◌||◌, Option, none, some, List, [], ◌∷◌,
  if◌then◌else◌, ◌==◌, string_eq, pair_eq, ltb, leb, keep, nat_eq,
}
use esan_gbos.Prelude.Int.{ℤ}
use esan_gbos.Prelude.Json.{Json, obj}
use esan_gbos.Prelude.Dict.{lookup, values}
use esan_gbos.Tasks.Errors.{validation_error, key_error, Result, ok, err}
use esan_gbos.Tasks.Models.{
  Datetime, TaskStatus, FailureClassification, EventType, ActorType, ReasonCode, AgentTaskMetadata,
}
use esan_gbos.Tasks.Payload.{LocalPilotTaskPayload, Patterns, from_mapping}
use esan_gbos.Tasks.Drafts.{require_aware}
use esan_gbos.Tasks.Lifecycle.{require_positive}
use esan_gbos.Tasks.Repository.{
  Repository, Action, ◌>>=◌, ◌>>◌, pure, lift, found, refuse, modify, gets, is_leased, is_waiting,
  has_expired, key, store_task, append_event, move_to_dead_letter,
}

pub record AgentTaskClaim : Type 0 where
  pub metadata : AgentTaskMetadata
  pub payload : LocalPilotTaskPayload

abbrev pub str_leb : String → String → Bool
str_leb a b = elim (compare a b) [ Ordering.gt ↦ false | _ ↦ true ]

abbrev pub str_ltb : String → String → Bool
str_ltb a b = elim (compare a b) [ Ordering.lt ↦ true | _ ↦ false ]

-- sorted(..., key=lambda item: item.task_id)
abbrev pub place : AgentTaskMetadata → List AgentTaskMetadata → List AgentTaskMetadata
place t [] = t ∷ []
place t (u ∷ us) = if str_leb t.task_id u.task_id then t ∷ u ∷ us else u ∷ place t us

unfoldable pub sort_by_task_id : List AgentTaskMetadata → List AgentTaskMetadata
sort_by_task_id [] = []
sort_by_task_id (t ∷ ts) = place t (sort_by_task_id ts)

-- The condition of _reap_expired.
abbrev pub is_exhausted : String → ℕ → AgentTaskMetadata → Bool
is_exhausted site_id now task =
    task.site_id == site_id
    && (is_leased task.status
        && (has_expired task.lease_expires_at now && leb task.max_attempts task.attempt))

-- The condition of _claim_candidates.
abbrev pub is_candidate : String → ℕ → AgentTaskMetadata → Bool
is_candidate site_id now task =
    task.site_id == site_id
    && ((is_waiting task.status && leb task.due_at now)
        || (is_leased task.status && has_expired task.lease_expires_at now))

unfoldable pub bury_all : List AgentTaskMetadata → ℕ → Action (Unit {0})
bury_all [] now = pure tt
bury_all (task ∷ rest) now = do
  move_to_dead_letter task now FailureClassification.internal ReasonCode.lease_expired_max_attempts
      none
  bury_all rest now

-- _reap_expired
unfoldable pub reap_expired : String → ℕ → Action (Unit {0})
reap_expired site_id now = do
  exhausted ← gets (λ s. keep (is_exhausted site_id now) (values s.tasks))
  bury_all (sort_by_task_id exhausted) now

-- _claim_candidates
unfoldable pub claim_candidates : String → ℕ → Repository → List AgentTaskMetadata
claim_candidates site_id now s = keep (is_candidate site_id now) (values s.tasks)

-- The order of the tuples (-priority, due_at, created_at, task_id).
abbrev pub precedes : AgentTaskMetadata → AgentTaskMetadata → Bool
precedes a b =
    ltb b.priority a.priority
    || (a.priority == b.priority
        && (ltb a.due_at b.due_at
            || (a.due_at == b.due_at
                && (ltb a.created_at b.created_at
                    || (a.created_at == b.created_at && str_ltb a.task_id b.task_id)))))

-- min(candidates, key=...): the first of the least.
unfoldable pub least : AgentTaskMetadata → List AgentTaskMetadata → AgentTaskMetadata
least best [] = best
least best (t ∷ ts) = least (if precedes t best then t else best) ts

unfoldable pub select : List AgentTaskMetadata → Option AgentTaskMetadata
select [] = none
select (t ∷ ts) = some (least t ts)

abbrev pub claimed : TaskStatus → AgentTaskMetadata → String → ℕ → ℕ → AgentTaskMetadata
claimed status current worker_id now lease = record current {
  status = status;
  attempt = suc current.attempt;
  lease_owner = some worker_id;
  lease_expires_at = some (now + lease);
  updated_at = now;
}

-- The end of claim, with a task chosen.
unfoldable pub lease_task : AgentTaskMetadata → String → ℕ → ℕ → Action (Option AgentTaskMetadata)
lease_task current worker_id now lease = do
  let task = claimed TaskStatus.leased current worker_id now lease
  modify (store_task task)
  append_event task EventType.leased now ActorType.worker (some worker_id)
  pure (some task)

abbrev pub lease_chosen :
    Option AgentTaskMetadata → String → ℕ → ℕ → Action (Option AgentTaskMetadata)
lease_chosen none worker_id now lease = pure none
lease_chosen (some current) worker_id now lease = lease_task current worker_id now lease

unfoldable pub claim : String → String → Datetime → ℤ → Action (Option AgentTaskMetadata)
claim site_id worker_id at_time lease_duration = do
  now ← lift (require_aware at_time)
  refuse (worker_id == "") validation_error
  lease ← lift (require_positive lease_duration)
  reap_expired site_id now
  candidates ← gets (claim_candidates site_id now)
  lease_chosen (select candidates) worker_id now lease

-- `isinstance(payload_value, Mapping)`
abbrev pub require_mapping : Json → Result Json
require_mapping (obj fs) = ok (obj fs)
require_mapping _ = err validation_error

module _ (x : Patterns) where
  -- The end of claim_for_execution, with a task chosen.
  unfoldable pub run_task : AgentTaskMetadata → String → ℕ → ℕ → Action (Option AgentTaskClaim)
  run_task current worker_id now lease = do
    payload_value ← found (← gets (λ s. lookup (key current) s.payloads)) key_error
    mapping ← lift (require_mapping payload_value)
    payload ← lift (from_mapping x mapping)
    let running = claimed TaskStatus.running current worker_id now lease
    modify (store_task running)
    append_event running EventType.leased now ActorType.worker (some worker_id)
    append_event running EventType.running now ActorType.worker (some worker_id)
    pure (some (record { metadata = running; payload = payload }))

  abbrev pub run_chosen : Option AgentTaskMetadata → String → ℕ → ℕ → Action (Option AgentTaskClaim)
  run_chosen none worker_id now lease = pure none
  run_chosen (some current) worker_id now lease = run_task current worker_id now lease

  unfoldable pub claim_for_execution :
      String → String → Datetime → ℤ → Action (Option AgentTaskClaim)
  claim_for_execution site_id worker_id at_time lease_duration = do
    now ← lift (require_aware at_time)
    refuse (worker_id == "") validation_error
    lease ← lift (require_positive lease_duration)
    reap_expired site_id now
    candidates ← gets (claim_candidates site_id now)
    run_chosen (select candidates) worker_id now lease
