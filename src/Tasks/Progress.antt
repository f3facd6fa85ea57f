-- ===== src/Tasks/Progress.antt =====
-- services/agent_runtime/repository.py: claim makes progress.
use esan_gbos.Prelude.{
  ℕ, ◌<◌, String, true, false, some, List, [], ◌∷◌, ◌≡◌, ◌≢◌, inl, inr, refl, ap, ◌∙◌, arith,
  pair_eq, string_eq, ◌==◌, All, All-keep, All-map, keep, Distinct, Distinct-keep,
}
use esan_gbos.Prelude.Int.{ℤ}
use esan_gbos.Prelude.Dict.{lookup, values, lookup-insert_ne, Distinct-values}
use esan_gbos.Tasks.Errors.{ok}
use esan_gbos.Tasks.Models.{AgentTaskMetadata, TaskStatus}
use esan_gbos.Tasks.Repository.{Repository, TaskKey, key}
use esan_gbos.Tasks.Lifecycle.{require_positive}
use esan_gbos.Tasks.Claim.{
  claim, reap_expired, bury_all, sort_by_task_id, is_candidate, is_exhausted, claimed,
}
use esan_gbos.Tasks.Records.{IsConsistent}
use esan_gbos.Tasks.Invariance.{History-IsConsistent}
use esan_gbos.Tasks.Reaping.{
  IsHeld, buried_one, bury_one, still-IsHeld, exhausted-IsHeld, after-go, stored_values,
}
use esan_gbos.Tasks.Sorting.{All-sort, Distinct-sort}
use esan_gbos.Tasks.Selection.{is_as_urgent}
use esan_gbos.Tasks.Leasing.{claim-Outcome}
use esan_gbos.Tasks.Fencing.{aware}

-- Burying tasks leaves every other key alone.
bury_all-frame :
    (ts : List AgentTaskMetadata) (now : ℕ) (s : Repository)
    → IsConsistent s
    → Distinct key ts
    → All (IsHeld s) ts
    → (k : TaskKey) → All (λ t. key t ≢ k) ts
    → lookup k (bury_all ts now s).1.tasks ≡ lookup k s.tasks
unfolding bury_all
bury_all-frame [] now s c d held k apart = refl
bury_all-frame (t ∷ ts) now s c d held k apart =
    let first = bury_one now s c t held.0 in
    let u = (buried_one now s c t held.0).1 in
    let rest =
      bury_all-frame ts now u (History-IsConsistent first.1 c) d.1
        (still-IsHeld now s c t held.0 ts d.0 held.1) k apart.1 in
    ap (λ r. lookup k r.1.tasks)
      (after-go (buried_one now s c t held.0) (λ _. bury_all ts now) first.0)
    ∙ (rest ∙ (ap (lookup k) first.2 ∙ lookup-insert_ne (key t) k _ s.tasks apart.0))

-- A task that is not exhausted is where it was after _reap_expired.
reap_expired-frame :
    (s : Repository) (c : IsConsistent s) (site_id : String) (now : ℕ) (k : TaskKey)
    (m : AgentTaskMetadata)
    → lookup k s.tasks ≡ some m
    → is_exhausted site_id now m ≡ false
    → lookup k (reap_expired site_id now s).1.tasks ≡ some m
unfolding reap_expired
reap_expired-frame s c site_id now k m at fine =
    let exhausted = keep (is_exhausted site_id now) (values s.tasks) in
    bury_all-frame (sort_by_task_id exhausted) now s c
      (Distinct-sort exhausted (
        Distinct-keep key (is_exhausted site_id now) (values s.tasks)
          (Distinct-values key s.tasks c.tables.dict c.tables.keyed)))
      (All-sort (IsHeld s) exhausted (exhausted-IsHeld s c site_id now)) k
      (All-sort (λ t. key t ≢ k) exhausted
        (All-map _ (λ t. key t ≢ k) exhausted
          (λ t h same. cc (at, fine, h.0, h.1, ap (λ i. lookup i s.tasks) same))
          (All-keep (λ n. lookup (key n) s.tasks ≡ some n) (is_exhausted site_id now)
            (values s.tasks) (stored_values s c))))
    ∙ at

with_room :
    (site_id : String) (now : ℕ) (m : AgentTaskMetadata)
    → m.attempt < m.max_attempts
    → is_exhausted site_id now m ≡ false
with_room site_id now m room = ground arith

-- Where a repository is consistent and holds a candidate of the site with an attempt left, claim
-- with a named worker, an aware time and a positive duration returns a task: leased to the worker,
-- and at least as urgent as that candidate, in priority, due time and creation time.
pub claim-progress :
    (s : Repository) (site_id worker_id : String) (now lease : ℕ) (duration : ℤ) (k : TaskKey)
    (m : AgentTaskMetadata)
    → IsConsistent s
    → (worker_id == "") ≡ false
    → require_positive duration ≡ ok lease
    → lookup k s.tasks ≡ some m
    → is_candidate site_id now m ≡ true
    → m.attempt < m.max_attempts
    → (old : AgentTaskMetadata) × ((claim site_id worker_id (aware now) duration s).0
        ≡ ok (some (claimed TaskStatus.leased old worker_id now lease)))
      × (is_as_urgent old m ≡ true)
claim-progress s site_id worker_id now lease duration k m c named positive at candidate room =
    let still = reap_expired-frame s c site_id now k m at (with_room site_id now m room) in
    elim (claim-Outcome s site_id worker_id now lease duration c named positive) [
      | inl (_, idle) ↦ absurd (cc (idle k m still, candidate))
      | inr (old, _, _, _, urgent, returned, _) ↦ (old, returned, urgent k m still candidate)
    ]
