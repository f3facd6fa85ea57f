-- ===== src/Tasks/Fencing.antt =====
-- services/agent_runtime/repository.py: the lease of a task as the fence of its worker's calls.
use esan_gbos.Prelude.{
  ℕ, String, true, false, some, List, ◌≡◌, refl, arith, ◌<◌, ◌≤◌, ◌≢◌, none, ◌+◌, pair_eq,
  string_eq, nat_eq, ◌==◌, is_unique, leb, ◌&&◌, Option, opt_beq, Bool-cases, inl, inr, ap,
  eq_of_==,
}
use esan_gbos.Prelude.Int.{ℤ}
use esan_gbos.Prelude.Dict.{lookup}
use esan_gbos.Tasks.Errors.{lease_conflict, ok, err}
use esan_gbos.Tasks.Models.{Datetime, AgentTaskMetadata, FailureClassification, TaskStatus}
use esan_gbos.Tasks.Repository.{Repository, Action, after, is_live, is_leased, require_live_lease}
use esan_gbos.Tasks.Lifecycle.{start, heartbeat, succeed, fail, require_positive}
use esan_gbos.Tasks.Claim.{claimed, is_candidate, is_exhausted}

-- A datetime with a timezone.
abbrev pub aware : ℕ → Datetime
aware t = record { instant = t; is_aware = true }

-- Without a live lease, whatever comes after the look at it is not run.
stale_lease :
    {B : Type 0} (s : Repository) (site_id task_id worker_id : String) (attempt now : ℕ)
    (task : AgentTaskMetadata) (f : AgentTaskMetadata → Action B)
    → lookup (site_id, task_id) s.tasks ≡ some task
    → is_live task worker_id attempt now ≡ false
    → after (require_live_lease site_id task_id worker_id attempt now s) f ≡ (err lease_conflict, s)
unfolding require_live_lease
stale_lease s site_id task_id worker_id attempt now task f at stale = rw (at, stale) refl

-- Why a worker has no lease on a task for an attempt at a time.
pub data IsStale (task : AgentTaskMetadata) (worker_id : String) (attempt now : ℕ) : Type 0 where
  not_held :
      task.status ≢ TaskStatus.leased
      → task.status ≢ TaskStatus.running
      → IsStale task worker_id attempt now
  other_owner : task.lease_owner ≢ some worker_id → IsStale task worker_id attempt now
  other_attempt : task.attempt ≢ attempt → IsStale task worker_id attempt now
  no_deadline : task.lease_expires_at ≡ none → IsStale task worker_id attempt now
  passed :
      (deadline : ℕ)
      → task.lease_expires_at ≡ some deadline
      → deadline ≤ now
      → IsStale task worker_id attempt now

not_held-is_leased :
    (status : TaskStatus)
    → status ≢ TaskStatus.leased
    → status ≢ TaskStatus.running
    → is_leased status ≡ false
not_held-is_leased TaskStatus.leased h k = absurd (h refl)
not_held-is_leased TaskStatus.running h k = absurd (k refl)
not_held-is_leased TaskStatus.queued h k = refl
not_held-is_leased TaskStatus.recheck h k = refl
not_held-is_leased TaskStatus.succeeded h k = refl
not_held-is_leased TaskStatus.dead_letter h k = refl
not_held-is_leased TaskStatus.failed h k = refl
not_held-is_leased TaskStatus.cancelled h k = refl

other_owner-opt_beq :
    (owner : Option String) (worker_id : String)
    → owner ≢ some worker_id
    → opt_beq owner (some worker_id) ≡ false
other_owner-opt_beq none worker_id h = refl
other_owner-opt_beq (some owner) worker_id h = elim (Bool-cases (owner == worker_id)) [
  | inl e ↦ absurd (h (ap some (eq_of_== owner worker_id e)))
  | inr e ↦ e
]

IsStale-is_live :
    (task : AgentTaskMetadata) (worker_id : String) (attempt now : ℕ)
    → IsStale task worker_id attempt now
    → is_live task worker_id attempt now ≡ false
IsStale-is_live task worker_id attempt now (not_held h k) =
    let free = not_held-is_leased task.status h k in ground arith
IsStale-is_live task worker_id attempt now (other_owner h) =
    let other = other_owner-opt_beq task.lease_owner worker_id h in ground arith
IsStale-is_live task worker_id attempt now (other_attempt h) =
    elim (Bool-cases (task.attempt == attempt)) [
      | inl e ↦ absurd (h (eq_of_== task.attempt attempt e))
      | inr e ↦ ground arith
    ]
IsStale-is_live task worker_id attempt now (no_deadline e) = ground (arith, e)
IsStale-is_live task worker_id attempt now (passed deadline e over) = ground arith

-- A lease that is not live, as _require_live_lease tests it, is refused by each of the four.
pub not_live-fenced :
    (s : Repository) (site_id task_id worker_id : String) (attempt now retry_at : ℕ)
    (task : AgentTaskMetadata) (duration : ℤ) (lease : ℕ) (refs : List String)
    (classification : FailureClassification)
    → lookup (site_id, task_id) s.tasks ≡ some task
    → is_live task worker_id attempt now ≡ false
    → require_positive duration ≡ ok lease
    → is_unique refs ≡ true
    → now < retry_at
    → (start site_id task_id worker_id attempt (aware now) s ≡ (err lease_conflict, s))
      × (heartbeat site_id task_id worker_id attempt (aware now) duration s
          ≡ (err lease_conflict, s))
      × (succeed site_id task_id worker_id attempt (aware now) refs s ≡ (err lease_conflict, s))
      × (fail site_id task_id worker_id attempt (aware now) (aware retry_at) classification s
          ≡ (err lease_conflict, s))
unfolding start heartbeat succeed fail
not_live-fenced s site_id task_id worker_id attempt now retry_at task duration lease refs
      classification at stale positive unique later =
    (
      stale_lease s site_id task_id worker_id attempt now task _ at stale,
      rw positive (stale_lease s site_id task_id worker_id attempt now task _ at stale),
      rw unique (stale_lease s site_id task_id worker_id attempt now task _ at stale),
      rw (soon retry_at now later)
          (stale_lease s site_id task_id worker_id attempt now task _ at stale),
    )
  where
    soon : (r n : ℕ) → n < r → leb r n ≡ false
    soon r n h = ground arith

-- A worker that has no lease on a stored task for the attempt (the task is neither leased nor
-- running, the owner or the attempt is another, there is no deadline, or it has passed) gets
-- LeaseConflict from start, heartbeat, succeed and fail, and each leaves the repository as it was;
-- its times are aware, its lease is positive, its artifact references are unique and its retry
-- time is in the future.
pub stale_worker-fenced :
    (s : Repository) (site_id task_id worker_id : String) (attempt now retry_at : ℕ)
    (task : AgentTaskMetadata) (duration : ℤ) (lease : ℕ) (refs : List String)
    (classification : FailureClassification)
    → lookup (site_id, task_id) s.tasks ≡ some task
    → IsStale task worker_id attempt now
    → require_positive duration ≡ ok lease
    → is_unique refs ≡ true
    → now < retry_at
    → (start site_id task_id worker_id attempt (aware now) s ≡ (err lease_conflict, s))
      × (heartbeat site_id task_id worker_id attempt (aware now) duration s
          ≡ (err lease_conflict, s))
      × (succeed site_id task_id worker_id attempt (aware now) refs s ≡ (err lease_conflict, s))
      × (fail site_id task_id worker_id attempt (aware now) (aware retry_at) classification s
          ≡ (err lease_conflict, s))
stale_worker-fenced s site_id task_id worker_id attempt now retry_at task duration lease refs
      classification at stale positive unique later =
    not_live-fenced s site_id task_id worker_id attempt now retry_at task duration lease refs
      classification at (IsStale-is_live task worker_id attempt now stale) positive unique later

-- From the moment of a claim until the lease ends, the task is no candidate and is not exhausted,
-- and the lease is live for exactly the worker and the attempt
-- that the claim wrote.
pub claimed-exclusive :
    (task : AgentTaskMetadata) (status : TaskStatus) (worker_id other site_id : String)
    (attempt now lease time : ℕ)
    → is_leased status ≡ true
    → time < now + lease
    → let new = claimed status task worker_id now lease in
      (is_candidate site_id time new ≡ false)
      × (is_exhausted site_id time new ≡ false)
      × (is_live new other attempt time ≡ (worker_id == other && new.attempt == attempt))
claimed-exclusive task status worker_id other site_id attempt now lease time active early =
    (ground arith, ground arith, ground arith)
