-- ===== src/Agents/Outcomes.antt =====
-- services/agent_runtime/worker.py: what a round of run_once ends with.
use esan_gbos.Prelude.{none, some, ◌≡◌, pair_eq, triple_eq, string_eq, nat_eq}
use esan_gbos.Tasks.Errors.{Error, ok, err}
use esan_gbos.Tasks.Payload.{Patterns}
use esan_gbos.Tasks.Repository.{Repository}
use esan_gbos.Tasks.Claim.{AgentTaskClaim, claim_for_execution}
use esan_gbos.Agents.Worker.{WorkerRunStatus, WorkerRunResult, AgentWorker, Round}
use esan_gbos.Agents.Inputs.{queue, Try, threw, gave}
use esan_gbos.Agents.Endings.{Ended}

-- What a round reports: the exception of the claim, that there is nothing to do, or how the
-- claimed task ended.
pub data Outcome (y : Patterns) (w : AgentWorker) (round : Round) (s : Repository)
    : Try WorkerRunResult → Repository → Type 0 where
  refused :
      (e : Error) (t : Repository)
      → claim_for_execution y w.site_id w.worker_id round.claimed_at w.lease_duration s ≡ (err e, t)
      → Outcome y w round s (threw (queue e)) t
  waits :
      (t : Repository)
      → claim_for_execution y w.site_id w.worker_id round.claimed_at w.lease_duration s
        ≡ (ok none, t)
      → Outcome y w round s
          (gave (record { status = WorkerRunStatus.idle; task_id = none; attempt = none }))
          t
  ended :
      (claim : AgentTaskClaim) (r : Try WorkerRunResult) (t : Repository)
      → (claim_for_execution y w.site_id w.worker_id round.claimed_at w.lease_duration s).0
        ≡ ok (some claim)
      → claim.metadata.site_id ≡ w.site_id
      → Ended w claim round r t
      → Outcome y w round s r t
