-- ===== src/Tasks/Claims.antt =====
-- claim and claim_for_execution in a consistent state: which task they take, what they leave, and
-- that they are histories of writes.
use esan_gbos.Prelude.{
  ℕ, String, true, false, Option, none, some, ◌≡◌, ◌≢◌, refl, sym, subst, arith, by_option, pair_eq,
  string_eq, ◌==◌,
}
use esan_gbos.Prelude.Int.{ℤ}
use esan_gbos.Prelude.Json.{Json}
use esan_gbos.Prelude.Dict.{lookup, lookup-insert_self}
use esan_gbos.Tasks.Errors.{Error, key_error, validation_error, err}
use esan_gbos.Tasks.Models.{Datetime, TaskStatus, EventType, ActorType, AgentTaskMetadata}
use esan_gbos.Tasks.Payload.{Patterns, from_mapping}
use esan_gbos.Tasks.Drafts.{require_aware}
use esan_gbos.Tasks.Lifecycle.{require_positive, has}
use esan_gbos.Tasks.Repository.{
  Repository, TaskKey, Action, key, is_leased, store_task, append_event, ◌>>=◌, ◌>>◌, pure,
}
use esan_gbos.Tasks.Claim.{
  is_exhausted, claim_candidates, select, claimed, lease_task, lease_chosen, run_chosen,
  reap_expired, claim, claim_for_execution, run_task, require_mapping,
}
use esan_gbos.Tasks.Records.{IsConsistent}
use esan_gbos.Tasks.Invariance.{History-IsConsistent}
use esan_gbos.Tasks.Effects.{
  Effect, refused, lift_rule, refuse_rule, found_rule, record_change, noted_rule,
  append_event-noted,
}
use esan_gbos.Tasks.Methods.{require_aware-faultless, require_positive-faultless}
use esan_gbos.Tasks.Reaping.{reap_expired-lem, after-go}
use esan_gbos.Tasks.Selection.{chosen_stored, chosen_room, candidate-open}
use esan_gbos.Tasks.Steps.{Change, here, next, join, lease}

-- What claiming a chosen task does to the table, whatever status it gives.
module _ (s : Repository) (c : IsConsistent s) (site_id worker_id : String) (now duration : ℕ)
    (fresh : (k : TaskKey) (m : AgentTaskMetadata)
      → lookup k s.tasks ≡ some m
      → is_exhausted site_id now m ≡ false)
    (current : AgentTaskMetadata)
    (chosen : select (claim_candidates site_id now s) ≡ some current) where
  -- The chosen task is open, has an attempt left, and so can be leased.
  pub chosen_Change :
      (status : TaskStatus)
      → is_leased status ≡ true
      → (lookup (key current) s.tasks ≡ some current)
        × Change current (claimed status current worker_id now duration)
  chosen_Change status act =
      let (at, passes) = chosen_stored s c site_id now chosen in
      (
        at,
        lease status worker_id now duration act (candidate-open site_id now current passes)
            (chosen_room site_id now current (c.tables.sound (key current) current at)
              (fresh (key current) current at) passes)
            refl,
      )

  pub lease_task-Effect : Effect s (lease_task current worker_id now duration s)
  unfolding lease_task
  lease_task-Effect =
      let (at, ch) = chosen_Change TaskStatus.leased refl in
      let written =
        record_change s c current (claimed TaskStatus.leased current worker_id now duration) at ch
          EventType.leased now ActorType.worker (some worker_id) in
      noted_rule s _ (some (claimed TaskStatus.leased current worker_id now duration)) written.0
        written.1

pub unpaid : {o : Option Json} → has o ≡ true → o ≡ none → ⊥
unpaid h e = cc

-- _reap_expired goes through, and the call goes on in a consistent state with no exhausted task.
reap_rule :
    {B : Type 0} (s : Repository) (c : IsConsistent s) (site_id : String) (now : ℕ)
    (f : Unit {0} → Action B)
    → ((t : Repository)
        → t ≡ (reap_expired site_id now s).1
        → IsConsistent t
        → ((k : TaskKey) (m : AgentTaskMetadata)
            → lookup k t.tasks ≡ some m
            → is_exhausted site_id now m ≡ false)
        → Effect t (f tt t))
    → Effect s ((reap_expired site_id now >>= f) s)
reap_rule s c site_id now f go =
    let reaped = reap_expired-lem s c site_id now in
    let t = (reap_expired site_id now s).1 in
    let rest = go t refl (History-IsConsistent reaped.1 c) reaped.2 in
    subst (Effect s) (sym (after-go (reap_expired site_id now s) f reaped.0))
      (record { reached = join reaped.1 rest.reached; faultless = rest.faultless })

pub claim-Effect :
    (s : Repository) (c : IsConsistent s) (site_id worker_id : String) (at_time : Datetime)
    (duration : ℤ)
    → Effect s (claim site_id worker_id at_time duration s)
unfolding claim
claim-Effect s c site_id worker_id at_time duration =
    lift_rule (Effect s) s (require_aware at_time) _
      (λ e h. refused (require_aware-faultless at_time e h))
      λ now _.
        refuse_rule (Effect s) s (worker_id == "") validation_error _ (λ _. refused (λ h. cc))
          λ _.
            lift_rule (Effect s) s (require_positive duration) _
              (λ e h. refused (require_positive-faultless duration e h))
              λ lease _. reap_rule s c site_id now _ λ t _ consistent fresh.
                by_option (λ o. Effect t (lease_chosen o worker_id now lease t))
                  (select (claim_candidates site_id now t))
                  (λ _. record { reached = here; faultless = tt })
                  (λ current chosen.
                    lease_task-Effect t consistent site_id worker_id now lease fresh current chosen)

pub require_mapping-faultless : (j : Json) (e : Error) → require_mapping j ≡ err e → e ≢ key_error
require_mapping-faultless j e h = ground arith

from_mapping-faultless :
    (x : Patterns) (j : Json) (e : Error) → from_mapping x j ≡ err e → e ≢ key_error
unfolding from_mapping
from_mapping-faultless x j e h = ground arith

module _ (x : Patterns) where
  run_task-Effect :
      (s : Repository) (c : IsConsistent s) (site_id worker_id : String) (now duration : ℕ)
      → ((k : TaskKey) (m : AgentTaskMetadata)
          → lookup k s.tasks ≡ some m
          → is_exhausted site_id now m ≡ false)
      → (current : AgentTaskMetadata) → select (claim_candidates site_id now s) ≡ some current
      → Effect s (run_task x current worker_id now duration s)
  unfolding run_task
  run_task-Effect s c site_id worker_id now duration fresh current chosen =
      let (at, ch) =
        chosen_Change s c site_id worker_id now duration fresh current chosen TaskStatus.running
          refl in
      let new = claimed TaskStatus.running current worker_id now duration in
      found_rule (Effect s) s (lookup (key current) s.payloads) key_error _
        (λ absent. absurd (unpaid (c.records.paid (key current) current at) absent))
        λ value _.
          lift_rule (Effect s) s (require_mapping value) _
            (λ e h. refused (require_mapping-faultless value e h))
            λ mapping _.
              lift_rule (Effect s) s (from_mapping x mapping) _
                (λ e h. refused (from_mapping-faultless x mapping e h))
                λ payload _.
                  let first =
                    record_change s c current new at ch EventType.leased now ActorType.worker
                      (some worker_id) in
                  let r =
                    append_event new EventType.leased now ActorType.worker (some worker_id)
                      (store_task new s) in
                  let second =
                    append_event-noted r.1 (History-IsConsistent first.1 c) new
                      (rw first.2 (lookup-insert_self (key new) new s.tasks)) EventType.running now
                      ActorType.worker (some worker_id) in
                  subst (Effect s)
                    (sym (
                      after-go r
                        (λ _.
                          append_event new EventType.running now ActorType.worker (some worker_id)
                          >> pure (some (record { metadata = new; payload = payload })))
                        first.0))
                    (noted_rule s _ _ second.0 (next first.1 second.1))

  pub claim_for_execution-Effect :
      (s : Repository) (c : IsConsistent s) (site_id worker_id : String) (at_time : Datetime)
      (duration : ℤ)
      → Effect s (claim_for_execution x site_id worker_id at_time duration s)
  unfolding claim_for_execution
  claim_for_execution-Effect s c site_id worker_id at_time duration =
      lift_rule (Effect s) s (require_aware at_time) _
        (λ e h. refused (require_aware-faultless at_time e h))
        λ now _.
          refuse_rule (Effect s) s (worker_id == "") validation_error _ (λ _. refused (λ h. cc))
            λ _.
              lift_rule (Effect s) s (require_positive duration) _
                (λ e h. refused (require_positive-faultless duration e h))
                λ lease _. reap_rule s c site_id now _ λ t _ consistent fresh.
                  by_option (λ o. Effect t (run_chosen x o worker_id now lease t))
                    (select (claim_candidates site_id now t))
                    (λ _. record { reached = here; faultless = tt })
                    (λ current chosen.
                      run_task-Effect t consistent site_id worker_id now lease fresh current chosen)
