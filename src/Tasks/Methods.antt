-- ===== src/Tasks/Methods.antt =====
-- Every method of the repository is a history of writes, and never raises a KeyError.
use esan_gbos.Prelude.{
  ℕ, String, true, false, not, Option, none, some, List, ◌≡◌, ◌≢◌, refl, sym, subst, pair_eq, inl,
  inr, arith, Option-cases, Bool-cases, leb, is_unique, ◌==◌, string_eq, ◌<◌,
}
use esan_gbos.Prelude.Int.{ℤ}
use esan_gbos.Prelude.Dict.{lookup}
use esan_gbos.Tasks.Errors.{
  Error, key_error, task_not_found, lease_conflict, validation_error, idempotency_conflict, err,
}
use esan_gbos.Tasks.Models.{
  is_submission, Datetime, TaskStatus, EventType, ActorType, FailureClassification, ReasonCode,
  AgentTaskMetadata, AgentTaskSubmission,
}
use esan_gbos.Tasks.Drafts.{require_aware}
use esan_gbos.Tasks.Repository.{
  Repository, TaskKey, key, is_live, is_leased, is_status, require_live_lease, move_to_dead_letter,
  Action, ◌>>=◌, lift, pure,
}
use esan_gbos.Tasks.Lifecycle.{
  require_positive, started, renewed, finished, retried, schedule_retry, start, heartbeat, succeed,
  fail, enqueue, enqueue_new, has, lacks_parent,
}
use esan_gbos.Tasks.Records.{IsConsistent}
use esan_gbos.Tasks.Effects.{
  Effect, refused, IsFaultless-of_ok, lift_rule, refuse_rule, lease_rule, store_task-changed,
  record_change, noted_rule, move_to_dead_letter-buried,
}
use esan_gbos.Tasks.Steps.{here, one, admitted, begin, renew, finish, retry}

none_of_has {ℓ} : {A : Type ℓ} (o : Option A) → has o ≡ false → o ≡ none
none_of_has none h = refl
none_of_has (some _) h = cc

pub require_aware-faultless : (d : Datetime) (e : Error) → require_aware d ≡ err e → e ≢ key_error
require_aware-faultless d e h = ground arith

pub require_positive-faultless : (d : ℤ) (e : Error) → require_positive d ≡ err e → e ≢ key_error
require_positive-faultless d e h = ground arith

pub is_live-leased :
    (task : AgentTaskMetadata) (worker_id : String) (attempt now : ℕ)
    → is_live task worker_id attempt now ≡ true
    → is_leased task.status ≡ true
is_live-leased task worker_id attempt now h = ground arith

-- The task that a live lease gives stands under its own key.
pub own_key :
    (s : Repository) (c : IsConsistent s) (k : TaskKey) (task : AgentTaskMetadata)
    → lookup k s.tasks ≡ some task
    → lookup (key task) s.tasks ≡ some task
own_key s c k task at =
    subst (λ i. lookup i s.tasks ≡ some task) (sym (c.tables.keyed k task at)) at

conflict : lease_conflict ≢ key_error
conflict h = cc

missing : task_not_found ≢ key_error
missing h = cc

invalid : validation_error ≢ key_error
invalid h = cc

reused : idempotency_conflict ≢ key_error
reused h = cc

module _ (s : Repository) (c : IsConsistent s) (site_id task_id worker_id : String) (attempt : ℕ)
    (at_time : Datetime) where
  -- With a live lease, a write of a changed task and its event complete a method.
  lease_then :
      (now : ℕ) (f : AgentTaskMetadata → Action AgentTaskMetadata)
      → ((task : AgentTaskMetadata)
          → lookup (key task) s.tasks ≡ some task
          → is_leased task.status ≡ true
          → Effect s (f task s))
      → Effect s ((require_live_lease site_id task_id worker_id attempt now >>= f) s)
  lease_then now f go =
      lease_rule (Effect s) s site_id task_id worker_id attempt now f (λ _. refused missing)
        (λ _ _ _. refused conflict)
        λ task at live.
          go task (own_key s c _ task at) (is_live-leased task worker_id attempt now live)

  aware_then :
      (d : Datetime) (f : ℕ → Action AgentTaskMetadata)
      → ((now : ℕ) → Effect s (f now s))
      → Effect s ((lift (require_aware d) >>= f) s)
  aware_then d f go =
      lift_rule (Effect s) s (require_aware d) f (λ e h. refused (require_aware-faultless d e h))
        (λ now _. go now)

  pub start-Effect : Effect s (start site_id task_id worker_id attempt at_time s)
  unfolding start
  start-Effect = aware_then at_time _ λ now. lease_then now _ λ task at leased.
      refuse_rule (Effect s) s (not (is_status task.status TaskStatus.leased)) lease_conflict _
        (λ _. refused conflict)
        λ _.
          let written =
            record_change s c task (started task now) at (begin now leased refl) EventType.running
              now ActorType.worker (some worker_id) in
          noted_rule s _ (started task now) written.0 written.1

  pub heartbeat-Effect :
      (duration : ℤ) → Effect s (heartbeat site_id task_id worker_id attempt at_time duration s)
  unfolding heartbeat
  heartbeat-Effect duration = aware_then at_time _ λ now.
      lift_rule (Effect s) s (require_positive duration) _
        (λ e h. refused (require_positive-faultless duration e h))
        λ lease _. lease_then now _ λ task at leased. record {
          reached = one (
              store_task-changed s c task (renewed task now lease) at
                (renew now lease leased refl));
          faultless = tt;
        }

  pub succeed-Effect :
      (refs : List String) → Effect s (succeed site_id task_id worker_id attempt at_time refs s)
  unfolding succeed
  succeed-Effect refs = aware_then at_time _ λ now.
      refuse_rule (Effect s) s (not (is_unique refs)) validation_error _ (λ _. refused invalid)
        λ _. lease_then now _ λ task at leased.
          let written =
            record_change s c task (finished task refs now) at (finish refs now leased refl)
              EventType.succeeded now ActorType.worker (some worker_id) in
          noted_rule s _ (finished task refs now) written.0 written.1

  schedule_retry-Effect :
      (task : AgentTaskMetadata) (now retry_at : ℕ) (classification : FailureClassification)
      → lookup (key task) s.tasks ≡ some task
      → is_leased task.status ≡ true
      → task.attempt < task.max_attempts
      → Effect s (schedule_retry task worker_id now retry_at classification s)
  unfolding schedule_retry
  schedule_retry-Effect task now retry_at classification at leased room =
      let written =
        record_change s c task (retried task now retry_at classification) at
          (retry now retry_at classification leased room refl) EventType.recheck_scheduled now
          ActorType.worker (some worker_id) in
      noted_rule s _ (retried task now retry_at classification) written.0 written.1

  dead_after :
      (task : AgentTaskMetadata) (now : ℕ) (classification : FailureClassification)
      → lookup (key task) s.tasks ≡ some task
      → is_leased task.status ≡ true
      → Effect s (
          move_to_dead_letter task now classification ReasonCode.max_attempts_exhausted
            (some worker_id)
            s)
  dead_after task now classification at leased =
      let written =
        move_to_dead_letter-buried s c task at leased now classification
          ReasonCode.max_attempts_exhausted (some worker_id) in
      record { reached = written.1; faultless = IsFaultless-of_ok _ written.0 }

  pub fail-Effect :
      (retry_time : Datetime) (classification : FailureClassification)
      → Effect s (fail site_id task_id worker_id attempt at_time retry_time classification s)
  unfolding fail
  fail-Effect retry_time classification = aware_then at_time _ λ now.
      aware_then retry_time _ λ retry_at.
        refuse_rule (Effect s) s (leb retry_at now) validation_error _ (λ _. refused invalid)
          λ _. lease_then now _ λ task at leased.
            elim (Bool-cases (leb task.max_attempts task.attempt)) [
              | inl spent ↦ rw spent (dead_after task now classification at leased)
              | inr room ↦
                  rw room (
                    schedule_retry-Effect task now retry_at classification at leased (ground arith))
            ]

-- A task that is new under both keys is admitted, unless its parent is unknown.
enqueue_new-Effect :
    (s : Repository) (submission : AgentTaskSubmission) (now : ℕ)
    → is_submission submission ≡ true
    → lookup (submission.site_id, submission.idempotency_key) s.idempotency ≡ none
    → Effect s (enqueue_new submission now s)
unfolding enqueue_new
enqueue_new-Effect s submission now room fresh =
    refuse_rule (Effect s) s (lacks_parent submission s) validation_error _ (λ _. refused invalid)
      λ _.
        refuse_rule (Effect s) s (has (lookup (submission.site_id, submission.task_id) s.tasks))
          validation_error _ (λ _. refused invalid)
          λ absent. record {
            reached = one (admitted submission now room fresh (none_of_has _ absent) refl);
            faultless = tt;
          }

pub enqueue-Effect :
    (s : Repository) (submission : AgentTaskSubmission) (at_time : Datetime)
    → is_submission submission ≡ true
    → Effect s (enqueue submission at_time s)
unfolding enqueue
enqueue-Effect s submission at_time room =
    lift_rule (Effect s) s (require_aware at_time) _
      (λ e h. refused (require_aware-faultless at_time e h))
      λ now _.
        elim (Option-cases
          (lookup (submission.site_id, submission.idempotency_key) s.idempotency)) [
            | inl fresh ↦ rw fresh (enqueue_new-Effect s submission now room fresh)
            | inr (task, known) ↦ rw known (
                refuse_rule (Effect s) s (not (task.payload_digest == submission.payload_digest))
                  idempotency_conflict (pure task) (λ _. refused reused)
                  λ _. record { reached = here; faultless = tt })
          ]
