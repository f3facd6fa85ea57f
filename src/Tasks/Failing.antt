-- ===== src/Tasks/Failing.antt =====
-- services/agent_runtime/repository.py: the two ends of fail under a live lease.
use esan_gbos.Prelude.{
  ℕ, String, true, false, none, some, ◌≤◌, ◌≡◌, refl, sym, subst, arith, ◌<◌, pair_eq, string_eq,
  inl, inr, leb, Bool-cases, if◌then◌else◌,
}
use esan_gbos.Prelude.Dict.{lookup, insert}
use esan_gbos.Tasks.Errors.{Result, ok}
use esan_gbos.Tasks.Models.{
  AgentTaskMetadata, FailureClassification, TaskStatus, ReasonCode, EventType, ActorType,
}
use esan_gbos.Tasks.Repository.{Repository, key, after, is_live, require_live_lease, terminal_of}
use esan_gbos.Tasks.Lifecycle.{fail, retried, schedule_retry}
use esan_gbos.Tasks.Records.{IsConsistent}
use esan_gbos.Tasks.Steps.{Change, retry}
use esan_gbos.Tasks.Effects.{record_change, after-ok, move_to_dead_letter-buried}
use esan_gbos.Tasks.Methods.{own_key, is_live-leased}
use esan_gbos.Tasks.Fencing.{aware}

-- What fail does to the task: it waits again, due at the retry time, or it is dead.
abbrev pub failed : AgentTaskMetadata → ℕ → ℕ → FailureClassification → AgentTaskMetadata
failed task now retry_at classification =
    if leb task.max_attempts task.attempt
    then terminal_of task now classification
    else retried task now retry_at classification

abbrev Fails :
    Repository
    → AgentTaskMetadata
    → AgentTaskMetadata
    → Result AgentTaskMetadata × Repository
    → Type 0
Fails s task new r = (r.0 ≡ ok new) × (r.1.tasks ≡ insert (key task) new s.tasks)

live_rule :
    (s : Repository) (site_id task_id worker_id : String) (attempt now : ℕ)
    (task : AgentTaskMetadata) {B : Type 0}
    (f : AgentTaskMetadata → Repository → Result B × Repository)
    → lookup (site_id, task_id) s.tasks ≡ some task
    → is_live task worker_id attempt now ≡ true
    → after (require_live_lease site_id task_id worker_id attempt now s) f ≡ f task s
unfolding require_live_lease
live_rule s site_id task_id worker_id attempt now task f at live = rw (at, live) refl

schedule_retry-Fails :
    (s : Repository) (c : IsConsistent s) (task : AgentTaskMetadata) (worker_id : String)
    (now retry_at : ℕ) (classification : FailureClassification)
    → lookup (key task) s.tasks ≡ some task
    → (ch : Change task (retried task now retry_at classification))
    → Fails s task
        (retried task now retry_at classification)
        (schedule_retry task worker_id now retry_at classification s)
unfolding schedule_retry
schedule_retry-Fails s c task worker_id now retry_at classification at ch =
    let new = retried task now retry_at classification in
    let written =
      record_change s c task new at ch EventType.recheck_scheduled now ActorType.worker
        (some worker_id) in
    subst (Fails s task new) (sym (after-ok _ new written.0)) (refl, written.2)

-- In a consistent repository fail under a live lease stores `failed` under the task's key.
pub fail-failed :
    (s : Repository) (site_id task_id worker_id : String) (attempt now retry_at : ℕ)
    (task : AgentTaskMetadata) (classification : FailureClassification)
    → IsConsistent s
    → lookup (site_id, task_id) s.tasks ≡ some task
    → is_live task worker_id attempt now ≡ true
    → now < retry_at
    → let r =
        fail site_id task_id worker_id attempt (aware now) (aware retry_at) classification s in
      (r.0 ≡ ok (failed task now retry_at classification))
      × (r.1.tasks ≡ insert (key task) (failed task now retry_at classification) s.tasks)
unfolding fail
fail-failed s site_id task_id worker_id attempt now retry_at task classification c at live later =
    let soon : leb retry_at now ≡ false = ground arith in
    let leased = is_live-leased task worker_id attempt now live in
    let own = own_key s c _ task at in
    rw soon (
      subst (Fails s task (failed task now retry_at classification))
        (sym (live_rule s site_id task_id worker_id attempt now task _ at live))
        (elim (Bool-cases (leb task.max_attempts task.attempt)) [
          | inl spent ↦ rw spent (
              let buried =
                move_to_dead_letter-buried s c task own leased now classification
                  ReasonCode.max_attempts_exhausted (some worker_id) in
              (buried.0, buried.2))
          | inr room ↦ rw room (
              schedule_retry-Fails s c task worker_id now retry_at classification own
                (retry now retry_at classification leased (ground arith) refl))
        ]))

-- What becomes of a task that fails: dead where its attempts have reached the budget, and otherwise
-- waiting for a recheck that is due at the retry time.
pub record Failed (old : AgentTaskMetadata) (now retry_at : ℕ)
    (classification : FailureClassification) (new : AgentTaskMetadata) : Type 0 where
  pub spent : old.max_attempts ≤ old.attempt → new.status ≡ TaskStatus.dead_letter
  pub room :
      old.attempt < old.max_attempts → (new.status ≡ TaskStatus.recheck) × (new.due_at ≡ retry_at)
  pub reason : new.failure_classification ≡ some classification
  pub unleased : (new.lease_owner ≡ none) × (new.lease_expires_at ≡ none)
  pub same : (new.task_id ≡ old.task_id) × (new.site_id ≡ old.site_id)
  pub counted : (new.attempt ≡ old.attempt) × (new.max_attempts ≡ old.max_attempts)
  pub written : new.updated_at ≡ now

failed-Failed :
    (task : AgentTaskMetadata) (now retry_at : ℕ) (classification : FailureClassification)
    → Failed task now retry_at classification (failed task now retry_at classification)
failed-Failed task now retry_at classification =
    elim (Bool-cases (leb task.max_attempts task.attempt)) [
      | inl over ↦ rw over (record {
        spent = λ h. refl;
        room = λ h. absurd (ground (arith, over, h));
        reason = refl;
        unleased = (refl, refl);
        same = (refl, refl);
        counted = (refl, refl);
        written = refl;
      })
      | inr left ↦ rw left (record {
        spent = λ h. absurd (ground (arith, left, h));
        room = λ h. (refl, refl);
        reason = refl;
        unleased = (refl, refl);
        same = (refl, refl);
        counted = (refl, refl);
        written = refl;
      })
    ]

-- In a consistent repository, fail under a live lease and with a retry time in the future returns
-- a task and stores it in the place of the old one, and changes no other task: where the attempts
-- have reached the budget it is dead, and otherwise it waits for a recheck that is due at the
-- retry time. It has the reason given, no owner and no deadline, and its attempts are as before.
pub fail-Fails :
    (s : Repository) (site_id task_id worker_id : String) (attempt now retry_at : ℕ)
    (task : AgentTaskMetadata) (classification : FailureClassification)
    → IsConsistent s
    → lookup (site_id, task_id) s.tasks ≡ some task
    → is_live task worker_id attempt now ≡ true
    → now < retry_at
    → let r =
        fail site_id task_id worker_id attempt (aware now) (aware retry_at) classification s in
      (new : AgentTaskMetadata) × (r.0 ≡ ok new)
      × (r.1.tasks ≡ insert (key task) new s.tasks)
      × Failed task now retry_at classification new
fail-Fails s site_id task_id worker_id attempt now retry_at task classification c at live later =
    let (returned, stored) =
      fail-failed s site_id task_id worker_id attempt now retry_at task classification c at live
        later in
    (
      failed task now retry_at classification,
      returned,
      stored,
      failed-Failed task now retry_at classification,
    )
