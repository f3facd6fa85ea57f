-- ===== src/Tasks/Completed.antt =====
-- services/agent_runtime/repository.py: what complete_with_proposal leaves when it returns.
use esan_gbos.Prelude.{
  ℕ, String, Bool, true, false, not, Option, none, some, List, [], ◌∷◌, ◌≡◌, refl, sym, ap, ◌∙◌,
  subst, arith, by_option, pair_eq, triple_eq, string_eq, nat_eq, ◌==◌,
}
use esan_gbos.Prelude.Dict.{lookup, insert, lookup-insert_self}
use esan_gbos.Tasks.Errors.{
  Error, key_error, idempotency_conflict, lease_conflict, task_not_found, Result, ok, err,
}
use esan_gbos.Tasks.Models.{Datetime, TaskStatus, EventType, ActorType, AgentTaskMetadata}
use esan_gbos.Tasks.Proposals.{
  Externals, AgentExecutionResult, ModelInvocationRecord, ActionProposalRecord,
  MaterializationOutboxRecord,
}
use esan_gbos.Tasks.Drafts.{from_execution, from_proposal, require_aware}
use esan_gbos.Tasks.Lifecycle.{finished, has}
use esan_gbos.Tasks.Repository.{
  Repository, Action, AttemptKey, after, pure, is_status, is_leased, key, store_task, append_event,
}
use esan_gbos.Tasks.Completion.{
  append_invocations, append_proposal, validate_replayed, is_fenced, replay, write_completion,
  restored, complete_new, complete_or_replay, complete_with_proposal,
}
use esan_gbos.Tasks.Records.{IsConsistent}
use esan_gbos.Tasks.Invariance.{Step-IsConsistent}
use esan_gbos.Tasks.Effects.{
  lift_rule, refuse_rule, found_rule, lease_rule, record_change, after-ok,
}
use esan_gbos.Tasks.Completions.{append_invocations-Aside, append_proposal-Aside, Aside-Step}
use esan_gbos.Tasks.Methods.{own_key, is_live-leased}
use esan_gbos.Tasks.Atomicity.{validate_replayed-Aside}
use esan_gbos.Tasks.Steps.{Step, aside, finish}

not-false : (b : Bool) → not b ≡ false → b ≡ true
not-false true h = refl
not-false false h = cc

-- Where the call returns a task, the task is stored, has succeeded in the attempt, and its outbox
-- record is there.
pub record Completed (site_id task_id : String) (attempt : ℕ)
    (r : Result AgentTaskMetadata × Repository) : Type 0 where
  pub promise :
      (m : AgentTaskMetadata)
      → r.0 ≡ ok m
      → (lookup (site_id, task_id) r.1.tasks ≡ some m)
        × (is_status m.status TaskStatus.succeeded ≡ true)
        × (m.attempt ≡ attempt)
        × (has (lookup (site_id, task_id, attempt) r.1.materializations) ≡ true)

module _ (site_id task_id : String) (attempt : ℕ) where
  abbrev Done : Result AgentTaskMetadata × Repository → Type 0
  Done r = Completed site_id task_id attempt r

  raised : (e : Error) (s : Repository) → Done (err e, s)
  raised e s = record { promise = λ m h. cc }

  returned :
      (m : AgentTaskMetadata) (t : Repository)
      → lookup (site_id, task_id) t.tasks ≡ some m
      → is_status m.status TaskStatus.succeeded ≡ true
      → m.attempt ≡ attempt
      → has (lookup (site_id, task_id, attempt) t.materializations) ≡ true
      → Done (ok m, t)
  returned m t stored succeeded same_attempt outbox = record {
    promise = λ n e.
        let same : m ≡ n = cc in
        (
          stored ∙ ap some same,
          subst (λ i. is_status i.status TaskStatus.succeeded ≡ true) same succeeded,
          ap (λ i. i.attempt) (sym same) ∙ same_attempt,
          outbox,
        );
  }

  Done-after :
      (r : Result (Unit {0}) × Repository) (f : Unit {0} → Action AgentTaskMetadata)
      → Done (f tt r.1)
      → Done (after r f)
  Done-after (ok tt, t) f h = h
  Done-after (err e, t) f h = raised e t

  Done-restored :
      (s : Repository) (r : Result AgentTaskMetadata × Repository) → Done r → Done (restored s r)
  Done-restored s (ok m, t) h = h
  Done-restored s (err e, t) h = record { promise = λ m h'. cc }

  -- The event of a completion leaves the outbox alone.
  append_event-outbox :
      (m : AgentTaskMetadata) (event_type : EventType) (now : ℕ) (actor_type : ActorType)
      (actor_ref : Option String) (s : Repository)
      → (append_event m event_type now actor_type actor_ref s).1.materializations
        ≡ s.materializations
  unfolding append_event
  append_event-outbox m event_type now actor_type actor_ref s =
      found_rule (λ r. r.1.materializations ≡ s.materializations) s (lookup (key m) s.timeline)
        key_error _ (λ _. refl) (λ _ _. refl)

  module _ (current : AgentTaskMetadata) (leased : is_leased current.status ≡ true)
      (own : key current ≡ (site_id, task_id)) (same_attempt : current.attempt ≡ attempt)
      (result : AgentExecutionResult) (proposal : ActionProposalRecord) (worker_id : String)
      (now : ℕ) where
    abbrev attempt_key : AttemptKey
    attempt_key = (site_id, task_id, attempt)

    abbrev new : AgentTaskMetadata
    new = finished current (proposal.proposal_id ∷ []) now

    finish-Done :
        (s : Repository)
        → IsConsistent s
        → lookup (key current) s.tasks ≡ some current
        → let t = record s {
          materializations = insert attempt_key (from_proposal proposal now) s.materializations;
        } in
          Done (
            after
              (append_event new EventType.succeeded now ActorType.worker
                (some worker_id)
                (store_task new t))
              (λ _. pure new))
    unfolding store_task
    finish-Done s c at =
        let t = record s {
          materializations = insert attempt_key (from_proposal proposal now) s.materializations;
        } in
        let step : Step s t = aside refl refl refl refl refl in
        let written =
          record_change t (Step-IsConsistent step c) current new at
            (finish (proposal.proposal_id ∷ []) now leased refl) EventType.succeeded now
            ActorType.worker (some worker_id) in
        let outbox =
          append_event-outbox new EventType.succeeded now ActorType.worker (some worker_id)
            (store_task new t) in
        let stored =
          ap (lookup (site_id, task_id)) written.2
          ∙ ap (λ k. lookup (site_id, task_id) (insert k new s.tasks)) own
          ∙ lookup-insert_self (site_id, task_id) new s.tasks in
        let kept =
          ap (λ o. has (lookup attempt_key o)) outbox
          ∙ ap has
              (lookup-insert_self attempt_key (from_proposal proposal now) s.materializations) in
        subst Done (sym (after-ok _ new written.0)) (returned new _ stored refl same_attempt kept)

    write_completion-Done :
        (s : Repository)
        → IsConsistent s
        → lookup (key current) s.tasks ≡ some current
        → Done (write_completion current result proposal attempt_key worker_id now s)
    unfolding write_completion
    write_completion-Done s c at =
        let first = append_invocations-Aside current proposal result.invocations s in
        let t = (append_invocations current proposal result.invocations s).1 in
        let second = append_proposal-Aside t proposal in
        Done-after (append_invocations current proposal result.invocations s) _ (
          Done-after (append_proposal proposal t) _ (
            finish-Done (append_proposal proposal t).1
              (Step-IsConsistent (Aside-Step _ second) (Step-IsConsistent (Aside-Step _ first) c))
              (rw (second.tasks, first.tasks) at)))

  complete_new-Done :
      (result : AgentExecutionResult) (proposal : ActionProposalRecord) (worker_id : String)
      (now : ℕ) (s : Repository)
      → IsConsistent s
      → Done (complete_new result proposal site_id task_id worker_id attempt now s)
  unfolding complete_new
  complete_new-Done result proposal worker_id now s c =
      lease_rule Done s site_id task_id worker_id attempt now _ (λ _. raised task_not_found s)
        (λ _ _ _. raised lease_conflict s)
        λ task at live.
          refuse_rule Done s (not (is_status task.status TaskStatus.running)) lease_conflict _
            (λ _. raised lease_conflict s)
            λ running. Done-restored s _ (
              write_completion-Done task (is_live-leased task worker_id attempt now live)
                (c.tables.keyed (site_id, task_id) task at) (ground arith) result proposal worker_id
                now s c (own_key s c _ task at))

  validated_then :
      (records : List ModelInvocationRecord) (s : Repository) (k : Action AgentTaskMetadata)
      → Done (k s)
      → Done (after (validate_replayed records s) (λ _. k))
  validated_then records s k h =
      Done-after (validate_replayed records s) (λ _. k)
        (subst (λ t. Done (k t)) (sym (validate_replayed-Aside records s).1) h)

  outbox_of :
      (task : AgentTaskMetadata) (proposal : ActionProposalRecord)
      (o : Option MaterializationOutboxRecord)
      → is_fenced task attempt proposal o ≡ true
      → (is_status task.status TaskStatus.succeeded ≡ true)
        × (task.attempt ≡ attempt)
        × (has o ≡ true)
  outbox_of task proposal none h = cc
  outbox_of task proposal (some m) h = (ground arith, ground arith, refl)

  replay-Done :
      (task : AgentTaskMetadata) (result : AgentExecutionResult)
      (proposal existing : ActionProposalRecord) (s : Repository)
      → lookup (site_id, task_id) s.tasks ≡ some task
      → Done (replay task result proposal (site_id, task_id, attempt) existing s)
  unfolding replay
  replay-Done task result proposal existing s at =
      refuse_rule Done s (not (existing.bundle_digest == proposal.bundle_digest))
        idempotency_conflict _ (λ _. raised idempotency_conflict s)
        λ _. validated_then result.invocations s _ (
          refuse_rule Done s
            (not (
              is_fenced task attempt proposal
                (lookup (site_id, task_id, attempt) s.materializations)))
            idempotency_conflict _ (λ _. raised idempotency_conflict s)
            (λ fenced.
              let (succeeded, same_attempt, outbox) =
                outbox_of task proposal _ (not-false _ fenced) in
              returned task s at succeeded same_attempt outbox))

-- In a consistent repository, a task that complete_with_proposal returns, first or again, is the
-- one that is then stored under the site and the name; it has succeeded in the expected attempt,
-- and the outbox has a record for that attempt.
pub complete_with_proposal-Completed :
    (x : Externals) (s : Repository) (site_id task_id worker_id : String) (expected_attempt : ℕ)
    (at_time : Datetime) (result : AgentExecutionResult)
    → IsConsistent s
    → Completed site_id task_id expected_attempt
        (complete_with_proposal x site_id task_id worker_id expected_attempt at_time result s)
unfolding complete_with_proposal
complete_with_proposal-Completed x s site_id task_id worker_id expected_attempt at_time result c =
    lift_rule (Completed site_id task_id expected_attempt) s (require_aware at_time) _
      (λ e _. raised site_id task_id expected_attempt e s)
      λ now _.
        found_rule (Completed site_id task_id expected_attempt) s
          (lookup (site_id, task_id) s.tasks) task_not_found _
          (λ _. raised site_id task_id expected_attempt task_not_found s)
          λ task at.
            refuse_rule (Completed site_id task_id expected_attempt) s
              (not (task.attempt == expected_attempt)) lease_conflict _
              (λ _. raised site_id task_id expected_attempt lease_conflict s)
              λ _.
                lift_rule (Completed site_id task_id expected_attempt) s
                  (from_execution x task result) _
                  (λ e _. raised site_id task_id expected_attempt e s)
                  λ proposal _.
                    by_option
                      (λ o. Completed site_id task_id expected_attempt (
                        complete_or_replay o task result proposal site_id task_id worker_id
                          expected_attempt now s))
                      (lookup (site_id, task_id, expected_attempt) s.proposals)
                      (λ _.
                        complete_new-Done site_id task_id expected_attempt result proposal worker_id
                          now s c)
                      (λ existing _.
                        replay-Done site_id task_id expected_attempt task result proposal existing s
                          at)
