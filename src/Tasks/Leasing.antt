-- ===== src/Tasks/Leasing.antt =====
-- services/agent_runtime/repository.py: what claim gives.
use esan_gbos.Prelude.{
  ℕ, String, Bool, true, false, Option, none, some, List, [], ◌∷◌, ◌≡◌, ◌⊎◌, refl, sym, subst,
  pair_eq, string_eq, ◌==◌, inl, inr, All, ◌<◌,
}
use esan_gbos.Prelude.Int.{ℤ}
use esan_gbos.Prelude.Dict.{lookup, insert, keep-values}
use esan_gbos.Tasks.Errors.{Result, ok}
use esan_gbos.Tasks.Models.{AgentTaskMetadata, TaskStatus, EventType, ActorType}
use esan_gbos.Tasks.Repository.{Repository, TaskKey, key}
use esan_gbos.Tasks.Lifecycle.{require_positive}
use esan_gbos.Tasks.Claim.{
  claim, reap_expired, claim_candidates, select, is_candidate, is_exhausted, claimed, lease_task,
  lease_chosen,
}
use esan_gbos.Tasks.Records.{IsConsistent}
use esan_gbos.Tasks.Invariance.{History-IsConsistent}
use esan_gbos.Tasks.Effects.{record_change, after-ok}
use esan_gbos.Tasks.Reaping.{reap_expired-lem, after-go}
use esan_gbos.Tasks.Selection.{is_as_urgent, chosen_stored, chosen_urgent, chosen_room}
use esan_gbos.Tasks.Claims.{chosen_Change}
use esan_gbos.Tasks.Fencing.{aware}

-- Where no task is chosen there is no candidate.
select-none : (ts : List AgentTaskMetadata) → select ts ≡ none → ts ≡ []
unfolding select
select-none [] e = refl
select-none (t ∷ ts) e = cc

none_chosen :
    (s : Repository) (site_id : String) (now : ℕ)
    → select (claim_candidates site_id now s) ≡ none
    → (k : TaskKey) (n : AgentTaskMetadata) → lookup k s.tasks ≡ some n
    → is_candidate site_id now n ≡ true
    → ⊥
unfolding claim_candidates
none_chosen s site_id now e k n found passes =
    keep-values (λ _. ⊥) (is_candidate site_id now) k n s.tasks found passes
      (subst (All (λ _. ⊥)) (sym (select-none _ e)) tt)

false_of_not : (b : Bool) → (b ≡ true → ⊥) → b ≡ false
false_of_not false h = refl
false_of_not true h = absurd (h refl)

-- The two outcomes of claim, over the state `t` that _reap_expired leaves.
abbrev pub Outcome :
    Repository → String → String → ℕ → ℕ → Result (Option AgentTaskMetadata) × Repository → Type 0
Outcome t site_id worker_id now lease r =
    ((r ≡ (ok none, t))
      × ((k : TaskKey) (n : AgentTaskMetadata)
          → lookup k t.tasks ≡ some n
          → is_candidate site_id now n ≡ false))
    ⊎ ((old : AgentTaskMetadata) × (lookup (key old) t.tasks ≡ some old)
        × (is_candidate site_id now old ≡ true)
        × (old.attempt < old.max_attempts)
        × ((k : TaskKey) (n : AgentTaskMetadata)
            → lookup k t.tasks ≡ some n
            → is_candidate site_id now n ≡ true
            → is_as_urgent old n ≡ true)
        × (r.0 ≡ ok (some (claimed TaskStatus.leased old worker_id now lease)))
        × (r.1.tasks
            ≡ insert (key old) (claimed TaskStatus.leased old worker_id now lease) t.tasks))

module _ (t : Repository) (c : IsConsistent t) (site_id worker_id : String) (now lease : ℕ)
    (fresh : (k : TaskKey) (m : AgentTaskMetadata)
      → lookup k t.tasks ≡ some m
      → is_exhausted site_id now m ≡ false) where
  -- A chosen task is leased.
  lease_task-lem :
      (old : AgentTaskMetadata)
      → select (claim_candidates site_id now t) ≡ some old
      → let r = lease_task old worker_id now lease t in
        (r.0 ≡ ok (some (claimed TaskStatus.leased old worker_id now lease)))
        × (r.1.tasks ≡ insert (key old) (claimed TaskStatus.leased old worker_id now lease) t.tasks)
  unfolding lease_task
  lease_task-lem old chosen =
      let (at, ch) =
        chosen_Change t c site_id worker_id now lease fresh old chosen TaskStatus.leased refl in
      let new = claimed TaskStatus.leased old worker_id now lease in
      let written =
        record_change t c old new at ch EventType.leased now ActorType.worker (some worker_id) in
      subst (λ r. (r.0 ≡ ok (some new)) × (r.1.tasks ≡ insert (key old) new t.tasks))
        (sym (after-ok _ (some new) written.0)) (refl, written.2)

  lease_chosen-Outcome :
      (o : Option AgentTaskMetadata)
      → select (claim_candidates site_id now t) ≡ o
      → Outcome t site_id worker_id now lease (lease_chosen o worker_id now lease t)
  lease_chosen-Outcome none empty =
      inl (refl, λ k n found. false_of_not _ (none_chosen t site_id now empty k n found))
  lease_chosen-Outcome (some old) chosen =
      let (at, passes) = chosen_stored t c site_id now chosen in
      let done = lease_task-lem old chosen in
      inr (
        old,
        at,
        passes,
        chosen_room site_id now old (c.tables.sound (key old) old at) (fresh (key old) old at)
            passes,
        chosen_urgent t site_id now chosen,
        done.0,
        done.1,
      )

-- In a consistent repository, claim with a named worker, an aware time and a positive duration
-- always returns. Over the state that _reap_expired leaves, either it returns None in that state
-- and no stored task is a candidate, or it returns a candidate with an attempt left that no
-- candidate precedes in priority, due time and creation time, leased to the worker until the
-- lease ends, and that is what it stores under the task's key.
pub claim-Outcome :
    (s : Repository) (site_id worker_id : String) (now lease : ℕ) (duration : ℤ)
    → IsConsistent s
    → (worker_id == "") ≡ false
    → require_positive duration ≡ ok lease
    → Outcome
        (reap_expired site_id now s).1
        site_id
        worker_id
        now
        lease
        (claim site_id worker_id (aware now) duration s)
unfolding claim
claim-Outcome s site_id worker_id now lease duration c named positive =
    let reaped = reap_expired-lem s c site_id now in
    let t = (reap_expired site_id now s).1 in
    rw (named, positive)
      (subst (Outcome t site_id worker_id now lease)
        (sym (after-go (reap_expired site_id now s) _ reaped.0))
        (lease_chosen-Outcome t (History-IsConsistent reaped.1 c) site_id worker_id now lease
          reaped.2 (select (claim_candidates site_id now t)) refl))
