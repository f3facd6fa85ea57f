-- ===== src/Tasks/Executing.antt =====
-- services/agent_runtime/repository.py: what claim_for_execution gives, and what a payload that
-- cannot be read does to it.
use esan_gbos.Prelude.{
  ℕ, String, false, Option, none, some, ◌≡◌, refl, sym, ap, ◌∙◌, subst, by_option, pair_eq,
  string_eq, ◌==◌, eq_of_==, both,
}
use esan_gbos.Prelude.Int.{ℤ}
use esan_gbos.Prelude.Json.{Json}
use esan_gbos.Prelude.Dict.{lookup, lookup-insert_self}
use esan_gbos.Tasks.Errors as Errors
use esan_gbos.Tasks.Errors.{Error, key_error, validation_error, Result, ok, err}
use esan_gbos.Tasks.Models.{Datetime, TaskStatus, EventType, ActorType, AgentTaskMetadata}
use esan_gbos.Tasks.Payload.{Patterns, LocalPilotTaskPayload, from_mapping}
use esan_gbos.Tasks.Drafts.{require_aware}
use esan_gbos.Tasks.Lifecycle.{require_positive}
use esan_gbos.Tasks.Repository.{
  Repository, TaskKey, Action, key, store_task, append_event, ◌>>=◌, ◌>>◌, pure, after, lift,
}
use esan_gbos.Tasks.Claim.{
  AgentTaskClaim, is_exhausted, claim_candidates, select, claimed, run_chosen, reap_expired,
  claim_for_execution, run_task, require_mapping,
}
use esan_gbos.Tasks.Records.{IsConsistent}
use esan_gbos.Tasks.Invariance.{History-IsConsistent}
use esan_gbos.Tasks.Effects.{lift_rule, refuse_rule, found_rule, record_change, append_event-noted}
use esan_gbos.Tasks.Reaping.{reap_expired-lem, after-go}
use esan_gbos.Tasks.Selection.{chosen_stored}
use esan_gbos.Tasks.Claims.{chosen_Change}
use esan_gbos.Tasks.Fencing.{aware}

-- A task that a call returns is stored at the site.
pub record Claimed (site_id : String) (r : Result (Option AgentTaskClaim) × Repository)
    : Type 0 where
  pub promise :
      (claim : AgentTaskClaim)
      → r.0 ≡ ok (some claim)
      → (lookup (site_id, claim.metadata.task_id) r.1.tasks ≡ some claim.metadata)
        × (claim.metadata.site_id ≡ site_id)

raised : {site_id : String} (e : Error) (s : Repository) → Claimed site_id (err e, s)
raised e s = record { promise = λ claim h. cc }

-- A call that appends an event to a table that holds the task, and returns the task.
given :
    {site_id : String} (new : AgentTaskMetadata) (payload : LocalPilotTaskPayload)
    (r : Result (Unit {0}) × Repository)
    → r.0 ≡ ok tt
    → lookup (key new) r.1.tasks ≡ some new
    → new.site_id ≡ site_id
    → Claimed site_id (after r (λ _. pure (some (record { metadata = new; payload = payload }))))
given {site_id} new payload (ok _, t) e at here = record {
  promise = λ claim h.
      let same : new ≡ claim.metadata = ap (claimed_or new) h in
      subst (λ m. (lookup (site_id, m.task_id) t.tasks ≡ some m) × (m.site_id ≡ site_id)) same
        (subst (λ i. lookup (i, new.task_id) t.tasks ≡ some new) here at, here);
}
  where
    claimed_or : AgentTaskMetadata → Result (Option AgentTaskClaim) → AgentTaskMetadata
    claimed_or m (ok (some c)) = c.metadata
    claimed_or m _ = m
given new payload (err _, t) e at here = cc

-- What run_task makes of the stored payload.
abbrev pub read_payload : Patterns → Json → Result LocalPilotTaskPayload
read_payload x value = Errors.◌>>=◌ (require_mapping value) (from_mapping x)

refused_last :
    {B C : Type 0} (m : Result B) (f : B → Action C) (s : Repository) {e : Error}
    → m ≡ err e
    → (lift m >>= f) s ≡ (err e, s)
refused_last m f s h = ap (λ r. after (r, s) f) h

-- Two readings of which one raises.
refused_chain :
    {A B C : Type 0} (m : Result A) (g : A → Result B) (f : B → Action C) (s : Repository)
    {e : Error}
    → Errors.◌>>=◌ m g ≡ err e
    → (lift m >>= λ a. lift (g a) >>= f) s ≡ (err e, s)
refused_chain (ok a) g f s h = refused_last (g a) f s h
refused_chain (err _) g f s h = ap (λ r. after (r, s) (λ b. f b)) h

module _ (x : Patterns) where
  run_task-Claimed :
      (s : Repository) (c : IsConsistent s) (site_id worker_id : String) (now duration : ℕ)
      → ((k : TaskKey) (m : AgentTaskMetadata)
          → lookup k s.tasks ≡ some m
          → is_exhausted site_id now m ≡ false)
      → (current : AgentTaskMetadata) → select (claim_candidates site_id now s) ≡ some current
      → Claimed site_id (run_task x current worker_id now duration s)
  unfolding run_task
  run_task-Claimed s c site_id worker_id now duration fresh current chosen =
      let (at, ch) =
        chosen_Change s c site_id worker_id now duration fresh current chosen TaskStatus.running
          refl in
      let here : current.site_id ≡ site_id =
        eq_of_== _ _ (both _ _ (chosen_stored s c site_id now chosen).1).0 in
      let new = claimed TaskStatus.running current worker_id now duration in
      found_rule (Claimed site_id) s (lookup (key current) s.payloads) key_error _
        (λ _. raised key_error s)
        λ value _.
          lift_rule (Claimed site_id) s (require_mapping value) _ (λ e _. raised e s)
            λ mapping _.
              lift_rule (Claimed site_id) s (from_mapping x mapping) _ (λ e _. raised e s)
                λ payload _.
                  let first =
                    record_change s c current new at ch EventType.leased now ActorType.worker
                      (some worker_id) in
                  let r =
                    append_event new EventType.leased now ActorType.worker (some worker_id)
                      (store_task new s) in
                  let stored : lookup (key new) r.1.tasks ≡ some new =
                    rw first.2 (lookup-insert_self (key new) new s.tasks) in
                  let second =
                    append_event-noted r.1 (History-IsConsistent first.1 c) new stored
                      EventType.running now ActorType.worker (some worker_id) in
                  subst (Claimed site_id)
                    (sym (
                      after-go r
                        (λ _.
                          append_event new EventType.running now ActorType.worker (some worker_id)
                          >> pure (some (record { metadata = new; payload = payload })))
                        first.0))
                    (given new payload _ second.0 (ap (lookup (key new)) second.2 ∙ stored) here)

  -- A claim that claim_for_execution returns from a consistent repository is of a task of the
  -- site that is then stored as it is returned.
  pub claim_for_execution-Claimed :
      (s : Repository) (c : IsConsistent s) (site_id worker_id : String) (at_time : Datetime)
      (duration : ℤ)
      → Claimed site_id (claim_for_execution x site_id worker_id at_time duration s)
  unfolding claim_for_execution
  claim_for_execution-Claimed s c site_id worker_id at_time duration =
      lift_rule (Claimed site_id) s (require_aware at_time) _ (λ e _. raised e s)
        λ now _.
          refuse_rule (Claimed site_id) s (worker_id == "") validation_error _
            (λ _. raised validation_error s)
            λ _.
              lift_rule (Claimed site_id) s (require_positive duration) _ (λ e _. raised e s)
                λ lease _.
                  let reaped = reap_expired-lem s c site_id now in
                  let t = (reap_expired site_id now s).1 in
                  subst (Claimed site_id) (sym (after-go (reap_expired site_id now s) _ reaped.0)) (
                    by_option (λ o. Claimed site_id (run_chosen x o worker_id now lease t))
                      (select (claim_candidates site_id now t))
                      (λ _. record { promise = λ claim h. absurd (no_claim h) })
                      (λ current chosen.
                        run_task-Claimed t (History-IsConsistent reaped.1 c) site_id worker_id now
                          lease reaped.2 current chosen))
    where
      no_claim : {claim : AgentTaskClaim} → ok none ≡ ok (some claim) → ⊥
      no_claim h = cc

  run_task-refused :
      (s : Repository) (current : AgentTaskMetadata) (worker_id : String) (now duration : ℕ)
      (value : Json)
      → lookup (key current) s.payloads ≡ some value
      → read_payload x value ≡ err validation_error
      → run_task x current worker_id now duration s ≡ (err validation_error, s)
  unfolding run_task
  run_task-refused s current worker_id now duration value at bad =
      rw at (refused_chain (require_mapping value) (from_mapping x) _ s bad)

  -- In a consistent repository, where the payload of the task that is chosen cannot be read,
  -- claim_for_execution raises ValidationError and leaves what _reap_expired left.
  pub claim_for_execution-blocked :
      (s : Repository) (site_id worker_id : String) (now lease : ℕ) (duration : ℤ)
      (current : AgentTaskMetadata) (value : Json)
      → IsConsistent s
      → (worker_id == "") ≡ false
      → require_positive duration ≡ ok lease
      → select (claim_candidates site_id now (reap_expired site_id now s).1) ≡ some current
      → lookup (key current) (reap_expired site_id now s).1.payloads ≡ some value
      → read_payload x value ≡ err validation_error
      → claim_for_execution x site_id worker_id (aware now) duration s
        ≡ (err validation_error, (reap_expired site_id now s).1)
  unfolding claim_for_execution
  claim_for_execution-blocked s site_id worker_id now lease duration current value c named positive
        chosen at bad =
      let reaped = reap_expired-lem s c site_id now in
      let t = (reap_expired site_id now s).1 in
      rw (named, positive)
        (after-go (reap_expired site_id now s) _ reaped.0
          ∙ ap (λ o. run_chosen x o worker_id now lease t) chosen
          ∙ run_task-refused t current worker_id now lease value at bad)
