-- ===== src/Tasks/Sorting.antt =====
-- sorted(..., key=lambda item: item.task_id) of services/agent_runtime/repository.py keeps the tasks
-- and their distinctness.
use esan_gbos.Prelude.{
  string_eq, List, [], ◌∷◌, ◌≢◌, inl, inr, sym, Bool-cases, pair_eq, All, Distinct,
}
use esan_gbos.Tasks.Models.{AgentTaskMetadata}
use esan_gbos.Tasks.Repository.{key}
use esan_gbos.Tasks.Claim.{sort_by_task_id, place, str_leb}

All-place :
    (P : AgentTaskMetadata → Type 0) (t : AgentTaskMetadata) (ts : List AgentTaskMetadata)
    → P t
    → All P ts
    → All P (place t ts)
All-place P t [] p h = (p, tt)
All-place P t (u ∷ us) p h = elim (Bool-cases (str_leb t.task_id u.task_id)) [
  | inl e ↦ rw e (p, h)
  | inr e ↦ rw e (h.0, All-place P t us p h.1)
]

place-All :
    (P : AgentTaskMetadata → Type 0) (t : AgentTaskMetadata) (ts : List AgentTaskMetadata)
    → All P (place t ts)
    → P t × All P ts
place-All P t [] h = h
place-All P t (u ∷ us) h = elim (Bool-cases (str_leb t.task_id u.task_id)) [
  | inl e ↦ rw e at h
  | inr e ↦
      let h' : All P (u ∷ place t us) = rw e at h in
      let rest = place-All P t us h'.1 in (rest.0, (h'.0, rest.1))
]

Distinct-place :
    (t : AgentTaskMetadata) (ts : List AgentTaskMetadata)
    → All (λ u. key t ≢ key u) ts
    → Distinct key ts
    → Distinct key (place t ts)
Distinct-place t [] a d = (tt, tt)
Distinct-place t (u ∷ us) a d = elim (Bool-cases (str_leb t.task_id u.task_id)) [
  | inl e ↦ rw e (a, d)
  | inr e ↦ rw e (
    All-place (λ v. key u ≢ key v) t us (λ same. a.0 (sym same)) d.0,
    Distinct-place t us a.1 d.1,
  )
]

-- Sorting keeps the members, and so what holds of each and their distinctness.
pub All-sort :
    (P : AgentTaskMetadata → Type 0) (ts : List AgentTaskMetadata)
    → All P ts
    → All P (sort_by_task_id ts)
unfolding sort_by_task_id
All-sort P [] h = tt
All-sort P (t ∷ ts) h = All-place P t (sort_by_task_id ts) h.0 (All-sort P ts h.1)

pub sort-All :
    (P : AgentTaskMetadata → Type 0) (ts : List AgentTaskMetadata)
    → All P (sort_by_task_id ts)
    → All P ts
unfolding sort_by_task_id
sort-All P [] h = tt
sort-All P (t ∷ ts) h =
    let parts = place-All P t (sort_by_task_id ts) h in (parts.0, sort-All P ts parts.1)

pub Distinct-sort :
    (ts : List AgentTaskMetadata) → Distinct key ts → Distinct key (sort_by_task_id ts)
unfolding sort_by_task_id
Distinct-sort [] d = tt
Distinct-sort (t ∷ ts) d =
    Distinct-place t (sort_by_task_id ts) (All-sort (λ u. key t ≢ key u) ts d.0)
      (Distinct-sort ts d.1)
