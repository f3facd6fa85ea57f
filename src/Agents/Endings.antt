-- ===== src/Agents/Endings.antt =====
-- services/agent_runtime/worker.py: how the worker ends a task that it claimed.
use esan_gbos.Prelude.{
  ℕ, ◌<◌, ◌+◌, String, true, false, ◌||◌, [], some, ◌≡◌, ◌⊎◌, inl, inr, refl, ap, ◌∙◌, subst,
  pair_eq, triple_eq, string_eq, nat_eq, leb, Bool-cases,
}
use esan_gbos.Prelude.Int.{pos}
use esan_gbos.Prelude.Dict.{lookup, insert, lookup-insert_self}
use esan_gbos.Tasks.Errors.{
  validation_error, idempotency_conflict, lease_conflict, task_not_found, key_error, value_error,
  Result, ok, err,
}
use esan_gbos.Tasks.Models.{AgentTaskMetadata, TaskStatus, FailureClassification}
use esan_gbos.Tasks.Proposals.{Externals}
use esan_gbos.Tasks.Payload.{Patterns}
use esan_gbos.Tasks.Repository.{Repository, key, is_status, is_live, is_waiting}
use esan_gbos.Tasks.Lifecycle.{fail, has, require_positive}
use esan_gbos.Tasks.Claim.{AgentTaskClaim}
use esan_gbos.Tasks.Run.{run}
use esan_gbos.Tasks.Steps.{History, here, join, is_dead}
use esan_gbos.Tasks.Records.{IsConsistent}
use esan_gbos.Tasks.Invariance.{History-IsConsistent}
use esan_gbos.Tasks.Methods.{fail-Effect}
use esan_gbos.Tasks.Persistence.{History-Kept}
use esan_gbos.Tasks.Fencing.{aware, not_live-fenced}
use esan_gbos.Tasks.Failing.{failed, fail-failed}
use esan_gbos.Tasks.Runs.{run-History}
use esan_gbos.Agents.Worker.{
  WorkerRunStatus, WorkerRunResult, result_of, AgentWorker, Round, classify_failure, is_lost,
  is_caught, attempt, report, fail_task, handle, recover,
}
use esan_gbos.Agents.Inputs.{Exception, Try, threw, gave}
use esan_gbos.Agents.Contained.{Raised, IsKnown}
use esan_gbos.Agents.Rounds.{IsRound, Tried, raised, done}

-- How a round may end for the task that it claimed.
pub data Ended (w : AgentWorker) (claim : AgentTaskClaim) (round : Round)
    : Try WorkerRunResult → Repository → Type 0 where
  -- the task has succeeded in the claimed attempt, and its outbox record is there
  as_succeeded :
      (m : AgentTaskMetadata) (t : Repository)
      → lookup (claim.metadata.site_id, claim.metadata.task_id) t.tasks ≡ some m
      → is_status m.status TaskStatus.succeeded ≡ true
      → m.attempt ≡ claim.metadata.attempt
      → has (
          lookup
            (claim.metadata.site_id, claim.metadata.task_id, claim.metadata.attempt)
            t.materializations)
        ≡ true
      → Ended w claim round (gave (result_of WorkerRunStatus.succeeded claim.metadata)) t
  -- the task waits for a recheck or is dead, for some reason
  as_failed :
      (m : AgentTaskMetadata) (t : Repository) (reason : FailureClassification)
      → lookup (claim.metadata.site_id, claim.metadata.task_id) t.tasks ≡ some m
      → is_waiting m.status || is_dead m.status ≡ true
      → m.failure_classification ≡ some reason
      → Ended w claim round (gave (result_of WorkerRunStatus.failed claim.metadata)) t
  as_lost :
      (t : Repository)
      → Ended w claim round (gave (result_of WorkerRunStatus.lease_lost claim.metadata)) t
  -- the resolver or the executor raised what the worker does not catch; the task is still stored
  as_escaped :
      (e : Exception) (m : AgentTaskMetadata) (t : Repository)
      → is_caught e ≡ false
      → Raised w claim round e
      → lookup (claim.metadata.site_id, claim.metadata.task_id) t.tasks ≡ some m
      → Ended w claim round (threw e) t

failed-settled :
    (m : AgentTaskMetadata) (now retry_at : ℕ) (reason : FailureClassification)
    → (is_waiting (failed m now retry_at reason).status
          || is_dead (failed m now retry_at reason).status
        ≡ true)
      × ((failed m now retry_at reason).failure_classification ≡ some reason)
failed-settled m now retry_at reason = elim (Bool-cases (leb m.max_attempts m.attempt)) [
  | inl spent ↦ rw spent (refl, refl)
  | inr room ↦ rw room (refl, refl)
]

-- fail on a task that is stored either returns it failed or raises LeaseConflict.
fail-cases :
    (s : Repository) (site_id task_id worker_id : String) (number now retry_at : ℕ)
    (task : AgentTaskMetadata) (reason : FailureClassification)
    → IsConsistent s
    → lookup (site_id, task_id) s.tasks ≡ some task
    → now < retry_at
    → let r = fail site_id task_id worker_id number (aware now) (aware retry_at) reason s in
      (r.0 ≡ err lease_conflict)
      ⊎ ((r.0 ≡ ok (failed task now retry_at reason))
          × (lookup (site_id, task_id) r.1.tasks ≡ some (failed task now retry_at reason)))
fail-cases s site_id task_id worker_id number now retry_at task reason c at soon =
    elim (Bool-cases (is_live task worker_id number now)) [
      | inl live ↦
          let done' =
            fail-failed s site_id task_id worker_id number now retry_at task reason c at live
              soon in
          let new = failed task now retry_at reason in
          let stored : lookup (key task) (insert (key task) new s.tasks) ≡ some new =
            lookup-insert_self (key task) new s.tasks in
          inr (
            done'.0,
            ap (lookup (site_id, task_id)) done'.1
                ∙ subst (λ k. lookup k (insert (key task) new s.tasks) ≡ some new)
                    (c.tables.keyed (site_id, task_id) task at) stored,
          )
      | inr lost ↦
          let refused =
            not_live-fenced s site_id task_id worker_id number now retry_at task (pos 1) 1 [] reason
              at lost positive refl soon in
          inl (ap (λ r. r.0) refused.3)
    ]
  where
    positive : require_positive (pos 1) ≡ ok 1
    positive = refl

module _ (x : Externals) (y : Patterns) (w : AgentWorker) where
  -- How the worker ends a round, as a history of the queue.
  abbrev Closes : AgentTaskClaim → Round → Repository → Try WorkerRunResult × Repository → Type 0
  Closes claim round s r = Ended w claim round r.0 r.1 × History s r.1

  report-Closes :
      (claim : AgentTaskClaim) (round : Round) (s : Repository) (m : AgentTaskMetadata)
      (now retry_at : ℕ) (reason : FailureClassification)
      (r : Result AgentTaskMetadata × Repository)
      → History s r.1
      → (r.0 ≡ err lease_conflict)
        ⊎ ((r.0 ≡ ok (failed m now retry_at reason))
            × (lookup (claim.metadata.site_id, claim.metadata.task_id) r.1.tasks
                ≡ some (failed m now retry_at reason)))
      → Closes claim round s (report x y w claim r)
  unfolding report
  report-Closes claim round s m now retry_at reason (ok _, t) h (inl e) = cc
  report-Closes claim round s m now retry_at reason (ok _, t) h (inr (_, at)) =
      let (settled, why) = failed-settled m now retry_at reason in
      (as_failed (failed m now retry_at reason) t reason at settled why, h)
  report-Closes claim round s m now retry_at reason (err lease_conflict, t) h o = (as_lost t, h)
  report-Closes claim round s m now retry_at reason (err validation_error, t) h (inl e) = cc
  report-Closes claim round s m now retry_at reason (err validation_error, t) h (inr (e, _)) = cc
  report-Closes claim round s m now retry_at reason (err idempotency_conflict, t) h (inl e) = cc
  report-Closes claim round s m now retry_at reason (err idempotency_conflict, t) h (inr (e, _)) =
      cc
  report-Closes claim round s m now retry_at reason (err task_not_found, t) h (inl e) = cc
  report-Closes claim round s m now retry_at reason (err task_not_found, t) h (inr (e, _)) = cc
  report-Closes claim round s m now retry_at reason (err key_error, t) h (inl e) = cc
  report-Closes claim round s m now retry_at reason (err key_error, t) h (inr (e, _)) = cc
  report-Closes claim round s m now retry_at reason (err value_error, t) h (inl e) = cc
  report-Closes claim round s m now retry_at reason (err value_error, t) h (inr (e, _)) = cc

  module _ (claim : AgentTaskClaim) (round : Round) (v : IsRound round) (failed_at retry_from : ℕ)
      (on_time : round.failed_at ≡ aware failed_at)
      (from_time : round.retry_from ≡ aware retry_from)
      (soon : failed_at < retry_from + w.retry_delay) where
    fail_task-Closes :
        (ending : Round) (e : Exception) (s : Repository) (m : AgentTaskMetadata)
        → IsConsistent s
        → lookup (claim.metadata.site_id, claim.metadata.task_id) s.tasks ≡ some m
        → Closes claim ending s (fail_task x y w claim round e s)
    unfolding fail_task
    fail_task-Closes ending e s m c at =
        let before = run-History x y round.failing s c v.failing in
        let c' = History-IsConsistent before c in
        let t = (run x y round.failing s).1 in
        let (n, still, _) = History-Kept before _ m at in
        let retry_at = retry_from + w.retry_delay in
        let reason = classify_failure w e in
        rw (on_time, from_time)
          (let effect =
              fail-Effect t c' claim.metadata.site_id claim.metadata.task_id w.worker_id
                claim.metadata.attempt (aware failed_at) (aware retry_at) reason in
            report-Closes claim ending s n failed_at retry_at reason _ (join before effect.reached)
              (fail-cases t claim.metadata.site_id claim.metadata.task_id w.worker_id
                claim.metadata.attempt failed_at retry_at n reason c' still soon))

    handle-Closes :
        (e : Exception) (s : Repository) (m : AgentTaskMetadata)
        → IsConsistent s
        → lookup (claim.metadata.site_id, claim.metadata.task_id) s.tasks ≡ some m
        → IsKnown w claim round e
        → Closes claim round s (handle x y w claim round e s)
    unfolding handle
    handle-Closes e s m c at known = elim (Bool-cases (is_lost e)) [
      | inl lost ↦ rw lost (as_lost s, here)
      | inr other ↦ elim (Bool-cases (is_caught e)) [
        | inl caught ↦ rw (other, caught) (fail_task-Closes round e s m c at)
        | inr uncaught ↦
            rw (other, uncaught) (as_escaped e m s uncaught (raised_of e uncaught known) at, here)
      ]
    ]
      where
        raised_of :
            (e : Exception) → is_caught e ≡ false → IsKnown w claim round e → Raised w claim round e
        raised_of e uncaught (inl caught) = cc
        raised_of e uncaught (inr from) = from

    pub recover-Closes :
        (s : Repository) (m : AgentTaskMetadata) (r : Try (Unit {0})) (t : Repository)
        → IsConsistent s
        → lookup (claim.metadata.site_id, claim.metadata.task_id) s.tasks ≡ some m
        → Tried w s claim round r t
        → Closes claim round s (recover x y w claim round (r, t))
    unfolding recover
    recover-Closes s m _ _ c at (raised e t known h) =
        let (n, still, _) = History-Kept h _ m at in
        let (ended, k) = handle-Closes e t n (History-IsConsistent h c) still known in
        (ended, join h k)
    recover-Closes s m _ _ c at (done n t at' succeeded attempt outbox h) =
        (as_succeeded n t at' succeeded attempt outbox, h)
