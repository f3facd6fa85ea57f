-- ===== src/Tasks/Atomicity.antt =====
-- complete_with_proposal in a consistent state: it is a history of writes, and one that raises
-- leaves the state as it was.
use esan_gbos.Prelude.{
  ℕ, String, not, List, [], ◌∷◌, ◌≡◌, ◌≢◌, refl, sym, subst, arith, by_option, pair_eq, triple_eq,
  string_eq, nat_eq, ◌==◌,
}
use esan_gbos.Prelude.Dict.{lookup}
use esan_gbos.Tasks.Errors.{
  Error, key_error, idempotency_conflict, lease_conflict, task_not_found, Result, ok, err,
}
use esan_gbos.Tasks.Models.{Datetime, TaskStatus, AgentTaskMetadata}
use esan_gbos.Tasks.Proposals.{
  Externals, AgentExecutionResult, ModelInvocationRecord, ActionProposalRecord,
}
use esan_gbos.Tasks.Drafts.{check_proposal, from_execution, require_aware}
use esan_gbos.Tasks.Repository.{Repository, Action, AttemptKey, after, is_status}
use esan_gbos.Tasks.Completion.{
  invocation_key, differs, validate_replayed, is_fenced, replay, write_completion, complete_new,
  complete_or_replay, complete_with_proposal,
}
use esan_gbos.Tasks.Records.{IsConsistent}
use esan_gbos.Tasks.Effects.{IsFaultless, lift_rule, refuse_rule, found_rule, lease_rule}
use esan_gbos.Tasks.Completions.{reused}
use esan_gbos.Tasks.Methods.{own_key, is_live-leased, require_aware-faultless}
use esan_gbos.Tasks.Steps.{History, here}
use esan_gbos.Tasks.Undoing.{
  Completes, write_completion-Completes, restore-Completes, restored-Effect, Atomic, refusal, lost,
}

missing : task_not_found ≢ key_error
missing h = cc

module _ (result : AgentExecutionResult) (proposal : ActionProposalRecord)
    (site_id task_id worker_id : String) (expected_attempt now : ℕ) where
  complete_new-Atomic :
      (s : Repository)
      → IsConsistent s
      → Atomic s (complete_new result proposal site_id task_id worker_id expected_attempt now s)
  unfolding complete_new
  complete_new-Atomic s c =
      lease_rule (Atomic s) s site_id task_id worker_id expected_attempt now _
        (λ _. refusal s task_not_found missing) (λ _ _ _. refusal s lease_conflict lost)
        λ task at live.
          refuse_rule (Atomic s) s (not (is_status task.status TaskStatus.running)) lease_conflict _
            (λ _. refusal s lease_conflict lost)
            λ running.
              let r =
                write_completion task result proposal (site_id, task_id, expected_attempt) worker_id
                  now s in
              let body : Completes s r =
                write_completion-Completes task
                  (is_live-leased task worker_id expected_attempt now live) result proposal
                  (site_id, task_id, expected_attempt) worker_id now s c (own_key s c _ task at) in
              record { effect = restored-Effect s r body; kept = restore-Completes s r body }

pub validate_replayed-Aside :
    (invocations : List ModelInvocationRecord) (s : Repository)
    → (IsFaultless (validate_replayed invocations s).0) × ((validate_replayed invocations s).1 ≡ s)
unfolding validate_replayed
validate_replayed-Aside [] s = (tt, refl)
validate_replayed-Aside (invocation ∷ rest) s =
    refuse_rule (λ r. IsFaultless r.0 × (r.1 ≡ s)) s
      (differs (lookup (invocation_key invocation) s.invocations) invocation) idempotency_conflict _
      (λ _. (reused, refl)) (λ _. validate_replayed-Aside rest s)

-- A call that only reads: whatever it gives, the state stays.
pub record Reads {A : Type 0} (s : Repository) (r : Result A × Repository) : Type 0 where
  pub same : r.1 ≡ s
  pub faultless : IsFaultless r.0

read_refusal :
    {A : Type 0} {s : Repository} {e : Error} → e ≢ key_error → Reads {A = A} s (err e, s)
read_refusal h = record { same = refl; faultless = h }

Reads-after :
    {A : Type 0} (s : Repository) (r : Result (Unit {0}) × Repository) (k : Action A)
    → (IsFaultless r.0) × (r.1 ≡ s)
    → Reads s (k s)
    → Reads s (after r (λ _. k))
Reads-after s (err e, t) k h go = record { same = h.1; faultless = h.0 }
Reads-after s (ok _, t) k h go = subst (λ t'. Reads s (k t')) (sym h.1) go

pub replay-Reads :
    (task : AgentTaskMetadata) (result : AgentExecutionResult) (proposal : ActionProposalRecord)
    (attempt_key : AttemptKey) (existing : ActionProposalRecord) (s : Repository)
    → Reads s (replay task result proposal attempt_key existing s)
unfolding replay
replay-Reads task result proposal attempt_key existing s =
    refuse_rule (Reads s) s (not (existing.bundle_digest == proposal.bundle_digest))
      idempotency_conflict _ (λ _. read_refusal reused)
      λ _.
        Reads-after s (validate_replayed result.invocations s) _
          (validate_replayed-Aside result.invocations s)
          (refuse_rule (Reads s) s
            (not (is_fenced task attempt_key.2 proposal (lookup attempt_key s.materializations)))
            idempotency_conflict _ (λ _. read_refusal reused)
            (λ _. record { same = refl; faultless = tt }))

Reads-Atomic : {A : Type 0} (s : Repository) (r : Result A × Repository) → Reads s r → Atomic s r
Reads-Atomic s r h = record {
  effect = record { reached = subst (History s) (sym h.same) here; faultless = h.faultless };
  kept = λ _ _. h.same;
}

from_execution-faultless :
    (x : Externals) (task : AgentTaskMetadata) (result : AgentExecutionResult) (e : Error)
    → from_execution x task result ≡ err e
    → e ≢ key_error
unfolding from_execution check_proposal
from_execution-faultless x task result e h = ground arith

-- In a consistent repository, complete_with_proposal reaches its state by writes that keep it
-- consistent, never raises KeyError, and where it raises leaves the repository as it was.
pub complete_with_proposal-Atomic :
    (x : Externals) (s : Repository) (site_id task_id worker_id : String) (expected_attempt : ℕ)
    (at_time : Datetime) (result : AgentExecutionResult)
    → IsConsistent s
    → Atomic s
        (complete_with_proposal x site_id task_id worker_id expected_attempt at_time result s)
unfolding complete_with_proposal
complete_with_proposal-Atomic x s site_id task_id worker_id expected_attempt at_time result c =
    lift_rule (Atomic s) s (require_aware at_time) _
      (λ e h. refusal s e (require_aware-faultless at_time e h))
      λ now _.
        found_rule (Atomic s) s (lookup (site_id, task_id) s.tasks) task_not_found _
          (λ _. refusal s task_not_found missing)
          λ task at.
            refuse_rule (Atomic s) s (not (task.attempt == expected_attempt)) lease_conflict _
              (λ _. refusal s lease_conflict lost)
              λ _.
                lift_rule (Atomic s) s (from_execution x task result) _
                  (λ e h. refusal s e (from_execution-faultless x task result e h))
                  λ proposal _.
                    by_option
                      (λ o. Atomic s (
                        complete_or_replay o task result proposal site_id task_id worker_id
                          expected_attempt now s))
                      (lookup (site_id, task_id, expected_attempt) s.proposals)
                      (λ _.
                        complete_new-Atomic result proposal site_id task_id worker_id
                          expected_attempt now s c)
                      (λ existing _. Reads-Atomic s _ (
                        replay-Reads task result proposal (site_id, task_id, expected_attempt)
                          existing s))
