-- ===== src/Tasks/Completions.antt =====
-- The writes of _append_invocation and _append_proposal stay beside the tasks' tables.
use esan_gbos.Prelude.{
  not, List, [], ◌∷◌, ◌≡◌, ◌≢◌, refl, ◌∙◌, by_option, pair_eq, triple_eq, string_eq, nat_eq, ◌==◌,
  any, ◌&&◌,
}
use esan_gbos.Prelude.Dict.{lookup, values}
use esan_gbos.Tasks.Errors.{key_error, validation_error, idempotency_conflict, Result, ok, err}
use esan_gbos.Tasks.Models.{AgentTaskMetadata}
use esan_gbos.Tasks.Proposals.{ModelInvocationRecord, ActionProposalRecord}
use esan_gbos.Tasks.Lifecycle.{has}
use esan_gbos.Tasks.Repository.{Repository, Action, after}
use esan_gbos.Tasks.Completion.{
  is_bound, same_invocation, invocation_key, invocation_idempotency_key, add_invocation,
  settle_invocation, append_invocation, append_invocations, add_proposal, settle_proposal,
  append_proposal,
}
use esan_gbos.Tasks.Effects.{IsFaultless, refuse_rule, refuse_last}
use esan_gbos.Tasks.Steps.{Step, aside}

-- The call writes only to the tables of proposals and invocations.
pub record Aside {A : Type 0} (s : Repository) (r : Result A × Repository) : Type 0 where
  pub tasks : r.1.tasks ≡ s.tasks
  pub payloads : r.1.payloads ≡ s.payloads
  pub idempotency : r.1.idempotency ≡ s.idempotency
  pub timeline : r.1.timeline ≡ s.timeline
  pub dead_letters : r.1.dead_letters ≡ s.dead_letters
  pub faultless : IsFaultless r.0

pub unwritten : {A : Type 0} {s : Repository} {r : Result A} → IsFaultless r → Aside s (r, s)
unwritten h = record {
  tasks = refl;
  payloads = refl;
  idempotency = refl;
  timeline = refl;
  dead_letters = refl;
  faultless = h;
}

Aside-after :
    {A B : Type 0} (s : Repository) (r : Result A × Repository) (f : A → Action B)
    → Aside s r
    → ((a : A) (t : Repository) → Aside t (f a t))
    → Aside s (after r f)
Aside-after s (err e, t) f h go = record {
  tasks = h.tasks;
  payloads = h.payloads;
  idempotency = h.idempotency;
  timeline = h.timeline;
  dead_letters = h.dead_letters;
  faultless = h.faultless;
}
Aside-after s (ok a, t) f h go =
    let k = go a t in
    record {
      tasks = k.tasks ∙ h.tasks;
      payloads = k.payloads ∙ h.payloads;
      idempotency = k.idempotency ∙ h.idempotency;
      timeline = k.timeline ∙ h.timeline;
      dead_letters = k.dead_letters ∙ h.dead_letters;
      faultless = k.faultless;
    }

pub Aside-Step : {A : Type 0} {s : Repository} (r : Result A × Repository) → Aside s r → Step s r.1
Aside-Step r h = aside h.tasks h.payloads h.idempotency h.timeline h.dead_letters

pub reused : idempotency_conflict ≢ key_error
reused h = cc

pub invalid : validation_error ≢ key_error
invalid h = cc

add_invocation-Aside :
    (s : Repository) (invocation : ModelInvocationRecord) → Aside s (add_invocation invocation s)
unfolding add_invocation
add_invocation-Aside s invocation =
    refuse_rule (Aside s) s (has (lookup (invocation_key invocation) s.invocations))
      idempotency_conflict _ (λ _. unwritten reused)
      λ _. record {
        tasks = refl;
        payloads = refl;
        idempotency = refl;
        timeline = refl;
        dead_letters = refl;
        faultless = tt;
      }

append_invocation-Aside :
    (s : Repository) (task : AgentTaskMetadata) (proposal : ActionProposalRecord)
    (invocation : ModelInvocationRecord)
    → Aside s (append_invocation task proposal invocation s)
unfolding append_invocation
append_invocation-Aside s task proposal invocation =
    refuse_rule (Aside s) s (not (is_bound task proposal invocation)) validation_error _
      (λ _. unwritten invalid)
      λ _.
        by_option (λ o. Aside s (settle_invocation o invocation s))
          (lookup (invocation_idempotency_key invocation) s.invocation_idempotency)
          (λ _. add_invocation-Aside s invocation)
          (λ old _.
            refuse_last (Aside s) s (not (same_invocation old invocation)) idempotency_conflict
              (λ _. unwritten reused) (λ _. unwritten tt))

pub append_invocations-Aside :
    (task : AgentTaskMetadata) (proposal : ActionProposalRecord)
    (invocations : List ModelInvocationRecord) (s : Repository)
    → Aside s (append_invocations task proposal invocations s)
unfolding append_invocations
append_invocations-Aside task proposal [] s = unwritten tt
append_invocations-Aside task proposal (invocation ∷ rest) s =
    Aside-after s (append_invocation task proposal invocation s)
      (λ _. append_invocations task proposal rest)
      (append_invocation-Aside s task proposal invocation)
      (λ _ t. append_invocations-Aside task proposal rest t)

add_proposal-Aside :
    (s : Repository) (proposal : ActionProposalRecord) → Aside s (add_proposal proposal s)
unfolding add_proposal
add_proposal-Aside s proposal =
    refuse_rule (Aside s) s
      (any (λ item. item.site_id == proposal.site_id && item.proposal_id == proposal.proposal_id)
        (values s.proposals))
      idempotency_conflict _ (λ _. unwritten reused)
      λ _. record {
        tasks = refl;
        payloads = refl;
        idempotency = refl;
        timeline = refl;
        dead_letters = refl;
        faultless = tt;
      }

pub append_proposal-Aside :
    (s : Repository) (proposal : ActionProposalRecord) → Aside s (append_proposal proposal s)
unfolding append_proposal
append_proposal-Aside s proposal =
    by_option (λ o. Aside s (settle_proposal o proposal s)) _ (λ _. add_proposal-Aside s proposal)
      (λ old _.
        refuse_last (Aside s) s _ idempotency_conflict (λ _. unwritten reused) (λ _. unwritten tt))
