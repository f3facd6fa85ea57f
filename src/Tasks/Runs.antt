-- ===== src/Tasks/Runs.antt =====
-- What every run of calls of services/agent_runtime/repository.py keeps.
use esan_gbos.Prelude.{◌≡◌, true, List, [], ◌∷◌, All, pair_eq, string_eq}
use esan_gbos.Tasks.Models.{is_submission}
use esan_gbos.Tasks.Errors.{Result, ok, err}
use esan_gbos.Tasks.Proposals.{Externals}
use esan_gbos.Tasks.Payload.{Patterns}
use esan_gbos.Tasks.Repository.{Repository}
use esan_gbos.Tasks.Run.{
  Call, enqueues, claims, claims_for_execution, starts, heartbeats, succeeds, fails, completes,
  discard, perform, run,
}
use esan_gbos.Tasks.Steps.{History, here, join}
use esan_gbos.Tasks.Records.{IsConsistent}
use esan_gbos.Tasks.Invariance.{History-IsConsistent}
use esan_gbos.Tasks.Effects.{IsFaultless, Effect}
use esan_gbos.Tasks.Methods.{
  enqueue-Effect, start-Effect, heartbeat-Effect, succeed-Effect, fail-Effect,
}
use esan_gbos.Tasks.Claims.{claim-Effect, claim_for_execution-Effect}
use esan_gbos.Tasks.Atomicity.{complete_with_proposal-Atomic}

-- A submission passed the checks of AgentTaskSubmission.
abbrev pub IsCall : Call → Type 0
IsCall (enqueues submission _) = is_submission submission ≡ true
IsCall _ = Unit

discard-Effect :
    {A : Type 0} {s : Repository} (r : Result A × Repository) → Effect s r → Effect s (discard r)
discard-Effect (ok _, t) h = record { reached = h.reached; faultless = tt }
discard-Effect (err _, t) h = record { reached = h.reached; faultless = h.faultless }

module _ (x : Externals) (y : Patterns) where
  pub perform-Effect :
      (s : Repository) (call : Call) → IsConsistent s → IsCall call → Effect s (perform x y call s)
  perform-Effect s (enqueues sub t) c h = discard-Effect _ (enqueue-Effect s sub t h)
  perform-Effect s (claims site w t d) c h = discard-Effect _ (claim-Effect s c site w t d)
  perform-Effect s (claims_for_execution site w t d) c h =
      discard-Effect _ (claim_for_execution-Effect y s c site w t d)
  perform-Effect s (starts site task w a t) c h =
      discard-Effect _ (start-Effect s c site task w a t)
  perform-Effect s (heartbeats site task w a t d) c h =
      discard-Effect _ (heartbeat-Effect s c site task w a t d)
  perform-Effect s (succeeds site task w a t refs) c h =
      discard-Effect _ (succeed-Effect s c site task w a t refs)
  perform-Effect s (fails site task w a t r k) c h =
      discard-Effect _ (fail-Effect s c site task w a t r k)
  perform-Effect s (completes site task w a t result) c h =
      let atomic = complete_with_proposal-Atomic x s site task w a t result c in
      discard-Effect _ atomic.effect

  pub run-History :
      (calls : List Call) (s : Repository)
      → IsConsistent s
      → All IsCall calls
      → History s (run x y calls s).1
  unfolding run
  run-History [] s c h = here
  run-History (call ∷ calls) s c h =
      let first = perform-Effect s call c h.0 in
      join first.reached (run-History calls _ (History-IsConsistent first.reached c) h.1)

  -- From a consistent repository, every sequence of calls whose submissions pass their checks
  -- leads to a consistent one: tasks and idempotency keys mirror each other, attempts stay within
  -- the budget, exactly leased and running tasks have an owner and a deadline, timelines are
  -- numbered from 0, every task has its payload, and exactly dead tasks have a dead letter.
  pub run-IsConsistent :
      (calls : List Call) (s : Repository)
      → IsConsistent s
      → All IsCall calls
      → IsConsistent (run x y calls s).1
  run-IsConsistent calls s c h = History-IsConsistent (run-History calls s c h) c

  -- From a consistent repository, no call of such a sequence raises KeyError: the timelines and
  -- payloads that the methods index are there.
  pub run-IsFaultless :
      (calls : List Call) (s : Repository)
      → IsConsistent s
      → All IsCall calls
      → All IsFaultless (run x y calls s).0
  unfolding run
  run-IsFaultless [] s c h = tt
  run-IsFaultless (call ∷ calls) s c h =
      let first = perform-Effect s call c h.0 in
      (first.faultless, run-IsFaultless calls _ (History-IsConsistent first.reached c) h.1)
