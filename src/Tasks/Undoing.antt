-- ===== src/Tasks/Undoing.antt =====
-- The writes of complete_with_proposal inside its `try`, and what `except` puts back.
use esan_gbos.Prelude.{
  ℕ, String, true, Option, some, [], ◌∷◌, ◌≡◌, ◌≢◌, refl, sym, ◌∙◌, subst, pair_eq, triple_eq,
  string_eq, nat_eq,
}
use esan_gbos.Prelude.Dict.{lookup, insert}
use esan_gbos.Tasks.Errors.{Error, key_error, lease_conflict, Result, ok, err}
use esan_gbos.Tasks.Models.{EventType, ActorType, AgentTaskMetadata}
use esan_gbos.Tasks.Proposals.{AgentExecutionResult, ActionProposalRecord}
use esan_gbos.Tasks.Drafts.{from_proposal}
use esan_gbos.Tasks.Lifecycle.{finished}
use esan_gbos.Tasks.Repository.{
  Repository, Action, AttemptKey, after, pure, is_leased, key, store_task, append_event,
}
use esan_gbos.Tasks.Completion.{append_invocations, append_proposal, write_completion, restored}
use esan_gbos.Tasks.Records.{IsConsistent}
use esan_gbos.Tasks.Invariance.{Step-IsConsistent}
use esan_gbos.Tasks.Effects.{IsFaultless, Effect, refused, found_rule, record_change, after-ok}
use esan_gbos.Tasks.Completions.{Aside, Aside-Step, append_invocations-Aside, append_proposal-Aside}
use esan_gbos.Tasks.Steps.{Step, History, aside, here, one, join, finish}

-- What the body of `try` does: its writes, and the two tables that it never touches.
pub record Completes {A : Type 0} (s : Repository) (r : Result A × Repository) : Type 0 where
  pub reached : History s r.1
  pub payloads : r.1.payloads ≡ s.payloads
  pub dead_letters : r.1.dead_letters ≡ s.dead_letters
  pub faultless : IsFaultless r.0

Completes-after :
    {A B : Type 0} (s : Repository) (r : Result A × Repository) (f : A → Action B)
    → Aside s r
    → ((a : A) → r.0 ≡ ok a → Completes r.1 (f a r.1))
    → Completes s (after r f)
Completes-after s (err e, t) f h go = record {
  reached = one (Aside-Step (err e, t) h);
  payloads = h.payloads;
  dead_letters = h.dead_letters;
  faultless = h.faultless;
}
Completes-after s (ok a, t) f h go =
    let k = go a refl in
    record {
      reached = join (one (Aside-Step (ok a, t) h)) k.reached;
      payloads = k.payloads ∙ h.payloads;
      dead_letters = k.dead_letters ∙ h.dead_letters;
      faultless = k.faultless;
    }

-- Appending an event touches only the timeline.
append_event-tables :
    (m : AgentTaskMetadata) (event_type : EventType) (now : ℕ) (actor_type : ActorType)
    (actor_ref : Option String) (s : Repository)
    → let r = append_event m event_type now actor_type actor_ref s in
      (r.1.payloads ≡ s.payloads) × (r.1.dead_letters ≡ s.dead_letters)
unfolding append_event
append_event-tables m event_type now actor_type actor_ref s =
    found_rule (λ r. (r.1.payloads ≡ s.payloads) × (r.1.dead_letters ≡ s.dead_letters)) s
      (lookup (key m) s.timeline) key_error _ (λ _. (refl, refl)) (λ _ _. (refl, refl))

module _ (current : AgentTaskMetadata) (leased : is_leased current.status ≡ true)
    (result : AgentExecutionResult) (proposal : ActionProposalRecord) (attempt_key : AttemptKey)
    (worker_id : String) (now : ℕ) where
  abbrev completed : AgentTaskMetadata
  completed = finished current (proposal.proposal_id ∷ []) now

  abbrev completion_event : Action (Unit {0})
  completion_event =
      append_event completed EventType.succeeded now ActorType.worker (some worker_id)

  -- The last writes: the outbox record, the task and its event.
  finish-Completes :
      (s : Repository)
      → IsConsistent s
      → lookup (key current) s.tasks ≡ some current
      → let t = record s {
        materializations = insert attempt_key (from_proposal proposal now) s.materializations;
      } in
        Completes s (after (completion_event (store_task completed t)) (λ _. pure completed))
  unfolding store_task
  finish-Completes s c at =
      let t = record s {
        materializations = insert attempt_key (from_proposal proposal now) s.materializations;
      } in
      let step : Step s t = aside refl refl refl refl refl in
      let ct = Step-IsConsistent step c in
      let written =
        record_change t ct current completed at (finish _ now leased refl) EventType.succeeded now
          ActorType.worker (some worker_id) in
      let tables =
        append_event-tables completed EventType.succeeded now ActorType.worker (some worker_id)
          (store_task completed t) in
      subst (Completes s) (sym (after-ok _ completed written.0)) (record {
        reached = join (one step) written.1;
        payloads = tables.0;
        dead_letters = tables.1;
        faultless = tt;
      })

  pub write_completion-Completes :
      (s : Repository)
      → IsConsistent s
      → lookup (key current) s.tasks ≡ some current
      → Completes s (write_completion current result proposal attempt_key worker_id now s)
  unfolding write_completion
  write_completion-Completes s c at =
      let first = append_invocations-Aside current proposal result.invocations s in
      Completes-after s _ _ first λ _ _.
        let t = (append_invocations current proposal result.invocations s).1 in
        let second = append_proposal-Aside t proposal in
        Completes-after t _ _ second λ _ _.
          let u = (append_proposal proposal t).1 in
          finish-Completes u
            (Step-IsConsistent (Aside-Step _ second) (Step-IsConsistent (Aside-Step _ first) c))
            (rw (second.tasks, first.tasks) at)

-- What is put back after an exception is everything that the body of `try` may have changed.
pub restore-Completes :
    {A : Type 0} (s : Repository) (r : Result A × Repository)
    → Completes s r
    → (e : Error) → (restored s r).0 ≡ err e
    → (restored s r).1 ≡ s
restore-Completes s (err _, t) h e _ = rw (h.payloads, h.dead_letters) refl
restore-Completes s (ok _, t) h e bad = cc

pub restored-Effect :
    {A : Type 0} (s : Repository) (r : Result A × Repository)
    → Completes s r
    → Effect s (restored s r)
restored-Effect s (err e, t) h = record {
  reached = subst (History s) (sym (restore-Completes s (err e, t) h e refl)) here;
  faultless = h.faultless;
}
restored-Effect s (ok a, t) h = record { reached = h.reached; faultless = tt }

-- A call that raises leaves the repository as it was.
pub record Atomic {A : Type 0} (s : Repository) (r : Result A × Repository) : Type 0 where
  pub effect : Effect s r
  pub kept : (e : Error) → r.0 ≡ err e → r.1 ≡ s

pub refusal :
    {A : Type 0} (s : Repository) (e : Error) → e ≢ key_error → Atomic {A = A} s (err e, s)
refusal s e h = record { effect = refused h; kept = λ _ _. refl }

pub lost : lease_conflict ≢ key_error
lost h = cc
