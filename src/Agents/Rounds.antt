-- ===== src/Agents/Rounds.antt =====
-- services/agent_runtime/worker.py: the body of a round's try, as a history of the queue.
use esan_gbos.Prelude.{
  inl, inr, true, Option, none, some, List, [], ◌∷◌, ◌≡◌, ◌≢◌, refl, subst, All, pair_eq, triple_eq,
  nat_eq, ref_eq, string_eq,
}
use esan_gbos.Prelude.Dict.{lookup}
use esan_gbos.Tasks.Errors.{Error, key_error, Result, ok, err}
use esan_gbos.Tasks.Models.{AgentTaskMetadata, TaskStatus}
use esan_gbos.Tasks.Proposals.{Externals, AgentExecutionResult}
use esan_gbos.Tasks.Payload.{Patterns}
use esan_gbos.Tasks.Repository.{Repository, is_status}
use esan_gbos.Tasks.Lifecycle.{heartbeat, has}
use esan_gbos.Tasks.Claim.{AgentTaskClaim}
use esan_gbos.Tasks.Documents.{some_injective}
use esan_gbos.Tasks.Run.{run}
use esan_gbos.Tasks.Steps.{History, here, join}
use esan_gbos.Tasks.Records.{IsConsistent}
use esan_gbos.Tasks.Invariance.{History-IsConsistent}
use esan_gbos.Tasks.Effects.{IsFaultless}
use esan_gbos.Tasks.Methods.{heartbeat-Effect}
use esan_gbos.Tasks.Atomicity.{complete_with_proposal-Atomic}
use esan_gbos.Tasks.Completed.{Completed, complete_with_proposal-Completed}
use esan_gbos.Tasks.Runs.{IsCall, perform-Effect, run-History}
use esan_gbos.Agents.Worker.{
  AgentWorker, Event, call, renewal, Round, prepare, others, renewed_or, meanwhile, completed,
  finish, executed, prepared, attempt,
}
use esan_gbos.Agents.Inputs.{Exception, Try, threw, gave, AgentInput}
use esan_gbos.Agents.Contained.{
  IsKnown, by_executor, prepare-IsKnown, faultless-caught, raised_by-caught,
}

abbrev pub IsEvent : Event → Type 0
IsEvent (call c) = IsCall c
IsEvent (renewal _) = Unit

-- The submissions of the other threads pass their checks.
pub record IsRound (round : Round) : Type 0 where
  pub resolving : All IsCall round.resolving
  pub executing : All IsEvent round.executing
  pub completing : All IsCall round.completing
  pub failing : All IsCall round.failing

-- What the try leaves: a history of the queue, and a completed task or an exception: one that the
-- worker catches, or one of the resolver or the executor.
pub data Tried (w : AgentWorker) (s : Repository) (claim : AgentTaskClaim) (round : Round)
    : Try (Unit {0}) → Repository → Type 0 where
  raised :
      (e : Exception) (t : Repository)
      → IsKnown w claim round e
      → History s t
      → Tried w s claim round (threw e) t
  done :
      (m : AgentTaskMetadata) (t : Repository)
      → lookup (claim.metadata.site_id, claim.metadata.task_id) t.tasks ≡ some m
      → is_status m.status TaskStatus.succeeded ≡ true
      → m.attempt ≡ claim.metadata.attempt
      → has (
          lookup
            (claim.metadata.site_id, claim.metadata.task_id, claim.metadata.attempt)
            t.materializations)
        ≡ true
      → History s t
      → Tried w s claim round (gave tt) t

module _ (x : Externals) (y : Patterns) (w : AgentWorker) where
  others-History :
      (events : List Event) (s : Repository)
      → IsConsistent s
      → All IsEvent events
      → History s (others x y w events s)
  unfolding others
  others-History [] s c h = here
  others-History (call c' ∷ events) s c h =
      let first = perform-Effect x y s c' c h.0 in
      join first.reached (others-History events _ (History-IsConsistent first.reached c) h.1)
  others-History (renewal _ ∷ events) s c h = others-History events s c h.1

  -- What the calls during the execution leave.
  abbrev Meanwhile : Repository → Option Error × Repository → Type 0
  Meanwhile s r = History s r.1 × ((e : Error) → r.0 ≡ some e → e ≢ key_error)

  renewed_or-Meanwhile :
      (s : Repository) (r : Result AgentTaskMetadata) (going : Option Error × Repository)
      (stopped : Repository)
      → IsFaultless r
      → Meanwhile s going
      → History s stopped
      → Meanwhile s (renewed_or x y w r going stopped)
  unfolding renewed_or
  renewed_or-Meanwhile s (ok _) going stopped f g h = g
  renewed_or-Meanwhile s (err e) going stopped f g h =
      (h, λ e' same. subst (λ d. d ≢ key_error) (some_injective same) f)

  meanwhile-Meanwhile :
      (task : AgentTaskMetadata) (events : List Event) (s : Repository)
      → IsConsistent s
      → All IsEvent events
      → Meanwhile s (meanwhile x y w task events s)
  unfolding meanwhile
  meanwhile-Meanwhile task [] s c h = (here, λ e none_raised. cc)
  meanwhile-Meanwhile task (call c' ∷ events) s c h =
      let first = perform-Effect x y s c' c h.0 in
      let rest = meanwhile-Meanwhile task events _ (History-IsConsistent first.reached c) h.1 in
      (join first.reached rest.0, rest.1)
  meanwhile-Meanwhile task (renewal now ∷ events) s c h =
      let first =
        heartbeat-Effect s c task.site_id task.task_id w.worker_id task.attempt now
          w.lease_duration in
      let c' = History-IsConsistent first.reached c in
      let rest = meanwhile-Meanwhile task events _ c' h.1 in
      renewed_or-Meanwhile s
        (heartbeat task.site_id task.task_id w.worker_id task.attempt now w.lease_duration s).0 _ _
        first.faultless (join first.reached rest.0, rest.1)
        (join first.reached (others-History events _ c' h.1))

  completed-Tried :
      (s : Repository) (claim : AgentTaskClaim) (round : Round) (result : AgentExecutionResult)
      (r : Result AgentTaskMetadata × Repository)
      → History s r.1
      → IsFaultless r.0
      → Completed claim.metadata.site_id claim.metadata.task_id claim.metadata.attempt r
      → let out = completed x y w result r in Tried w s claim round out.0 out.1
  unfolding completed
  completed-Tried s claim round result (ok m, t) h f promised =
      let (at, succeeded, attempt, outbox) = promised.promise m refl in
      done m t at succeeded attempt outbox h
  completed-Tried s claim round result (err e, t) h f promised =
      raised _ t (inl (raised_by-caught w result e f)) h

  finish-Tried :
      (claim : AgentTaskClaim) (round : Round) (result : AgentExecutionResult)
      (failure : Option Error) (s : Repository)
      → IsConsistent s
      → IsRound round
      → ((e : Error) → failure ≡ some e → e ≢ key_error)
      → let out = finish x y w claim round result failure s in Tried w s claim round out.0 out.1
  unfolding finish
  finish-Tried claim round result (some e) s c v f =
      raised _ s (inl (faultless-caught e (f e refl))) here
  finish-Tried claim round result none s c v f =
      let before = run-History x y round.completing s c v.completing in
      let c' = History-IsConsistent before c in
      let t = (run x y round.completing s).1 in
      let atomic =
        complete_with_proposal-Atomic x t claim.metadata.site_id claim.metadata.task_id w.worker_id
          claim.metadata.attempt round.completed_at result c' in
      completed-Tried s claim round result _ (join before atomic.effect.reached)
        atomic.effect.faultless
        (complete_with_proposal-Completed x t claim.metadata.site_id claim.metadata.task_id
          w.worker_id claim.metadata.attempt round.completed_at result c')

  Tried-join :
      (s t : Repository) (claim : AgentTaskClaim) (round : Round) (r : Try (Unit {0}))
      (u : Repository)
      → History s t
      → Tried w t claim round r u
      → Tried w s claim round r u
  Tried-join s t claim round _ _ h (raised e u caught k) = raised e u caught (join h k)
  Tried-join s t claim round _ _ h (done m u at succeeded attempt outbox k) =
      done m u at succeeded attempt outbox (join h k)

  executed-Tried :
      (claim : AgentTaskClaim) (round : Round) (r : Try AgentExecutionResult) (s : Repository)
      (during : Option Error × Repository)
      → IsConsistent s
      → IsRound round
      → ((e : Exception) → r ≡ threw e → IsKnown w claim round e)
      → Meanwhile s during
      → let out = executed x y w claim round r during in Tried w s claim round out.0 out.1
  unfolding executed
  executed-Tried claim round (threw e) s (failure, t) c v caught m = raised e t (caught e refl) m.0
  executed-Tried claim round (gave result) s (failure, t) c v caught m =
      Tried-join s t claim round _ _ m.0
        (finish-Tried claim round result failure t (History-IsConsistent m.0 c) v m.1)

  prepared-Tried :
      (claim : AgentTaskClaim) (round : Round) (r : Try AgentInput) (s : Repository)
      → prepare w claim ≡ r
      → IsConsistent s
      → IsRound round
      → let out = prepared x y w claim round r s in Tried w s claim round out.0 out.1
  unfolding prepared
  prepared-Tried claim round (threw e) s same c v =
      raised e s (prepare-IsKnown w claim round e same) here
  prepared-Tried claim round (gave input) s same c v =
      executed-Tried claim round (w.execute input round.executed_at) s
        (meanwhile x y w claim.metadata round.executing s) c v
        (λ e h. inr (by_executor input same h))
        (meanwhile-Meanwhile claim.metadata round.executing s c v.executing)

  pub attempt-Tried :
      (claim : AgentTaskClaim) (round : Round) (s : Repository)
      → IsConsistent s
      → IsRound round
      → let out = attempt x y w claim round s in Tried w s claim round out.0 out.1
  unfolding attempt
  attempt-Tried claim round s c v =
      let before = run-History x y round.resolving s c v.resolving in
      Tried-join s (run x y round.resolving s).1 claim round _ _ before
        (prepared-Tried claim round (prepare w claim) _ refl (History-IsConsistent before c) v)
