-- ===== src/Tasks/Selection.antt =====
-- The choice of the task to claim: a stored candidate, of the highest priority, and among those of
-- the earliest due date and then the earliest creation.
use esan_gbos.Prelude.{
  ℕ, ◌<◌, String, Bool, true, false, ◌&&◌, ◌||◌, some, List, [], ◌∷◌, ◌≡◌, inl, inr, subst, sym, ap,
  if◌then◌else◌, arith, Bool-cases, pair_eq, nat_eq, ◌==◌, ltb, leb, All, All-keep,
}
use esan_gbos.Prelude.Dict.{lookup, values, keep-values}
use esan_gbos.Tasks.Models.{AgentTaskMetadata}
use esan_gbos.Tasks.Repository.{Repository, TaskKey, key}
use esan_gbos.Tasks.Claim.{is_exhausted, is_candidate, claim_candidates, precedes, least, select}
use esan_gbos.Tasks.Records.{IsConsistent}
use esan_gbos.Tasks.Reaping.{stored_values}
use esan_gbos.Tasks.Steps.{IsTask, is_open}

-- `a` is claimed no later than `b`, as far as priority, due date and creation decide.
abbrev pub is_as_urgent : AgentTaskMetadata → AgentTaskMetadata → Bool
is_as_urgent a b =
    ltb b.priority a.priority
    || (a.priority == b.priority
        && (ltb a.due_at b.due_at || (a.due_at == b.due_at && leb a.created_at b.created_at)))

is_as_urgent_refl : (a : AgentTaskMetadata) → is_as_urgent a a ≡ true
is_as_urgent_refl a = ground arith

is_as_urgent_trans :
    (a b c : AgentTaskMetadata)
    → is_as_urgent a b ≡ true
    → is_as_urgent b c ≡ true
    → is_as_urgent a c ≡ true
is_as_urgent_trans a b c h k = ground arith

precedes-urgent : (a b : AgentTaskMetadata) → precedes a b ≡ true → is_as_urgent a b ≡ true
precedes-urgent a b h = ground arith

precedes-urgent_not : (a b : AgentTaskMetadata) → precedes a b ≡ false → is_as_urgent b a ≡ true
precedes-urgent_not a b h = ground arith

least-All :
    (P : AgentTaskMetadata → Type 0) (best : AgentTaskMetadata) (ts : List AgentTaskMetadata)
    → P best
    → All P ts
    → P (least best ts)
unfolding least
least-All P best [] p h = p
least-All P best (t ∷ ts) p h = elim (Bool-cases (precedes t best)) [
  | inl e ↦ rw e (least-All P t ts h.0 h.1)
  | inr e ↦ rw e (least-All P best ts p h.1)
]

abbrev Leads : AgentTaskMetadata → AgentTaskMetadata → List AgentTaskMetadata → Type 0
Leads found best ts = (is_as_urgent found best ≡ true) × All (λ t. is_as_urgent found t ≡ true) ts

-- The least task is as urgent as the first and as every other.
least-Leads :
    (best : AgentTaskMetadata) (ts : List AgentTaskMetadata) → Leads (least best ts) best ts
unfolding least
least-Leads best [] = (is_as_urgent_refl best, tt)
least-Leads best (t ∷ ts) = elim (Bool-cases (precedes t best)) [
  | inl e ↦
      let ih = least-Leads t ts in
      subst (λ b. Leads (least b ts) best (t ∷ ts)) (sym (ap (λ p. if p then t else best) e))
        (is_as_urgent_trans (least t ts) t best ih.0 (precedes-urgent t best e), (ih.0, ih.1))
  | inr e ↦
      let ih = least-Leads best ts in
      subst (λ b. Leads (least b ts) best (t ∷ ts)) (sym (ap (λ p. if p then t else best) e))
        (
          ih.0,
          (is_as_urgent_trans (least best ts) best t ih.0 (precedes-urgent_not t best e), ih.1),
        )
]

pub select-All :
    (P : AgentTaskMetadata → Type 0) (ts : List AgentTaskMetadata) {m : AgentTaskMetadata}
    → All P ts
    → select ts ≡ some m
    → P m
unfolding select
select-All P [] h e = cc
select-All P (t ∷ ts) h e = subst P (cc) (least-All P t ts h.0 h.1)

select-urgent :
    (ts : List AgentTaskMetadata) {m : AgentTaskMetadata}
    → select ts ≡ some m
    → All (λ t. is_as_urgent m t ≡ true) ts
unfolding select
select-urgent [] e = tt
select-urgent (t ∷ ts) {m} e =
    let same : least t ts ≡ m = cc in
    subst (λ m. All (λ u. is_as_urgent m u ≡ true) (t ∷ ts)) same (least-Leads t ts)

-- In a consistent state the chosen task is stored under its key, and is a candidate.
pub chosen_stored :
    (s : Repository) (c : IsConsistent s) (site_id : String) (now : ℕ) {m : AgentTaskMetadata}
    → select (claim_candidates site_id now s) ≡ some m
    → (lookup (key m) s.tasks ≡ some m) × (is_candidate site_id now m ≡ true)
unfolding claim_candidates
chosen_stored s c site_id now e =
    select-All _ _
      (All-keep (λ m. lookup (key m) s.tasks ≡ some m) (is_candidate site_id now) (values s.tasks)
        (stored_values s c))
      e

-- No stored candidate is more urgent than the chosen one.
pub chosen_urgent :
    (s : Repository) (site_id : String) (now : ℕ) {m : AgentTaskMetadata}
    → select (claim_candidates site_id now s) ≡ some m
    → (k : TaskKey) (n : AgentTaskMetadata) → lookup k s.tasks ≡ some n
    → is_candidate site_id now n ≡ true
    → is_as_urgent m n ≡ true
unfolding claim_candidates
chosen_urgent s site_id now {m} e k n found passes =
    keep-values (λ t. is_as_urgent m t ≡ true) (is_candidate site_id now) k n s.tasks found passes
      (select-urgent _ e)

-- Where no candidate is exhausted, the chosen task has an attempt left.
pub chosen_room :
    (site_id : String) (now : ℕ) (m : AgentTaskMetadata)
    → IsTask m
    → is_exhausted site_id now m ≡ false
    → is_candidate site_id now m ≡ true
    → m.attempt < m.max_attempts
chosen_room site_id now m v fresh h = ground arith

pub candidate-open :
    (site_id : String) (now : ℕ) (m : AgentTaskMetadata)
    → is_candidate site_id now m ≡ true
    → is_open m.status ≡ true
candidate-open site_id now m h = ground arith
