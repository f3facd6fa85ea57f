-- ===== src/Tasks/Consistency.antt =====
-- The consistency of the queue's tables, and that every write keeps it.
use esan_gbos.Prelude.{
  true, ℕ, suc, Option, none, some, List, [], ◌∷◌, ◌≡◌, ◌≢◌, ◌⊎◌, sym, ap, ◌∙◌, subst, pair_eq, inl,
  inr,
}
use esan_gbos.Prelude.Dict.{
  lookup, insert, IsDict, lookup-insert_self, lookup-insert_ne, lookup-insert_cases, insert-IsDict,
}
use esan_gbos.Tasks.Models.{
  is_submission, AgentTaskSubmission, AgentTaskMetadata, TimelineEventMetadata,
}
use esan_gbos.Tasks.Repository.{Repository, TaskKey, key, idempotency_key_of}
use esan_gbos.Tasks.Lifecycle.{admit, task_of}
use esan_gbos.Tasks.Steps.{IsTask, task_of-IsTask}

-- The events of a timeline are numbered from `n` on, one by one.
abbrev pub Numbered : ℕ → List TimelineEventMetadata → Type 0
Numbered n [] = Unit
Numbered n (e ∷ es) = (e.sequence ≡ n) × Numbered (suc n) es

-- The tables of tasks and of idempotency keys hold the same tasks, each under its own keys.
pub record IsMirrored (s : Repository) : Type 0 where
  pub dict : IsDict s.tasks
  pub keyed : (k : TaskKey) (m : AgentTaskMetadata) → lookup k s.tasks ≡ some m → key m ≡ k
  pub sound : (k : TaskKey) (m : AgentTaskMetadata) → lookup k s.tasks ≡ some m → IsTask m
  pub mirrored :
      (k : TaskKey) (m : AgentTaskMetadata)
      → lookup k s.tasks ≡ some m
      → lookup (idempotency_key_of m) s.idempotency ≡ some m
  pub owned :
      (k : TaskKey) (m : AgentTaskMetadata)
      → lookup k s.idempotency ≡ some m
      → (idempotency_key_of m ≡ k) × (lookup (key m) s.tasks ≡ some m)

same_task :
    {m n : AgentTaskMetadata} {o : Option AgentTaskMetadata} → o ≡ some m → o ≡ some n → m ≡ n
same_task p q = cc

module _ (s t : Repository) (c : IsMirrored s) (old new : AgentTaskMetadata)
    (at : lookup (key old) s.tasks ≡ some old) (same_key : key new ≡ key old)
    (same_idempotency : idempotency_key_of new ≡ idempotency_key_of old) (v : IsTask new)
    (tasks : t.tasks ≡ insert (key new) new s.tasks)
    (idempotency : t.idempotency ≡ insert (idempotency_key_of new) new s.idempotency) where
  split_tasks :
      (k : TaskKey) (m : AgentTaskMetadata)
      → lookup k t.tasks ≡ some m
      → ((key new ≡ k) × (new ≡ m)) ⊎ ((key new ≢ k) × (lookup k s.tasks ≡ some m))
  split_tasks k m h = lookup-insert_cases (key new) k new s.tasks (rw tasks at h)

  split_idempotency :
      (k : TaskKey) (m : AgentTaskMetadata)
      → lookup k t.idempotency ≡ some m
      → ((idempotency_key_of new ≡ k) × (new ≡ m))
        ⊎ ((idempotency_key_of new ≢ k) × (lookup k s.idempotency ≡ some m))
  split_idempotency k m h =
      lookup-insert_cases (idempotency_key_of new) k new s.idempotency (rw idempotency at h)

  stored : lookup (key new) t.tasks ≡ some new
  stored = rw tasks (lookup-insert_self (key new) new s.tasks)

  stored_idempotency : lookup (idempotency_key_of new) t.idempotency ≡ some new
  stored_idempotency =
      rw idempotency (lookup-insert_self (idempotency_key_of new) new s.idempotency)

  keyed_after : (k : TaskKey) (m : AgentTaskMetadata) → lookup k t.tasks ≡ some m → key m ≡ k
  keyed_after k m h = elim (split_tasks k m h) [
    | inl (e, e') ↦ ap key (sym e') ∙ e
    | inr (ne, h') ↦ c.keyed k m h'
  ]

  sound_after : (k : TaskKey) (m : AgentTaskMetadata) → lookup k t.tasks ≡ some m → IsTask m
  sound_after k m h = elim (split_tasks k m h) [
    | inl (e, e') ↦ subst IsTask e' v
    | inr (ne, h') ↦ c.sound k m h'
  ]

  -- A task under the idempotency key of the old one is the old one.
  is_old_by_idempotency :
      (k : TaskKey) (m : AgentTaskMetadata)
      → lookup k s.tasks ≡ some m
      → idempotency_key_of new ≡ idempotency_key_of m
      → m ≡ old
  is_old_by_idempotency k m h e =
      same_task (c.mirrored k m h)
        (ap (λ i. lookup i s.idempotency) (sym e ∙ same_idempotency) ∙ c.mirrored (key old) old at)

  is_old_by_key :
      (m : AgentTaskMetadata) → lookup (key m) s.tasks ≡ some m → key new ≡ key m → m ≡ old
  is_old_by_key m h e = same_task h (ap (λ k. lookup k s.tasks) (sym e ∙ same_key) ∙ at)

  mirrored_after :
      (k : TaskKey) (m : AgentTaskMetadata)
      → lookup k t.tasks ≡ some m
      → lookup (idempotency_key_of m) t.idempotency ≡ some m
  mirrored_after k m h = elim (split_tasks k m h) [
    | inl (e, e') ↦
        subst (λ n. lookup (idempotency_key_of n) t.idempotency ≡ some n) e' stored_idempotency
    | inr (ne, h') ↦
        rw
          (
            idempotency,
            lookup-insert_ne (idempotency_key_of new) (idempotency_key_of m) new s.idempotency (λ e.
                ne (same_key ∙ ap key (sym (is_old_by_idempotency k m h' e)) ∙ c.keyed k m h')),
          )
          (c.mirrored k m h')
  ]

  owned_after :
      (k : TaskKey) (m : AgentTaskMetadata)
      → lookup k t.idempotency ≡ some m
      → (idempotency_key_of m ≡ k) × (lookup (key m) t.tasks ≡ some m)
  owned_after k m h = elim (split_idempotency k m h) [
    | inl (e, e') ↦
        (ap idempotency_key_of (sym e') ∙ e, subst (λ n. lookup (key n) t.tasks ≡ some n) e' stored)
    | inr (ne, h') ↦
        let own = c.owned k m h' in
        (
          own.0,
          rw
              (
                tasks,
                lookup-insert_ne (key new) (key m) new s.tasks (λ e. ne (
                    same_idempotency
                    ∙ ap idempotency_key_of (sym (is_old_by_key m own.1 e))
                    ∙ own.0)),
              )
              own.1,
        )
  ]

  -- Rewriting one task under its own keys keeps the tables together.
  pub rewrite-IsMirrored : IsMirrored t
  rewrite-IsMirrored = record {
    dict = rw tasks (insert-IsDict (key new) new s.tasks c.dict);
    keyed = keyed_after;
    sound = sound_after;
    mirrored = mirrored_after;
    owned = owned_after;
  }

-- The same for a task that is new under both of its keys.
module _ (s : Repository) (c : IsMirrored s) (submission : AgentTaskSubmission) (now : ℕ)
    (room : is_submission submission ≡ true)
    (fresh_idempotency : lookup (submission.site_id, submission.idempotency_key) s.idempotency
      ≡ none)
    (fresh : lookup (submission.site_id, submission.task_id) s.tasks ≡ none) where
  abbrev added : AgentTaskMetadata
  added = task_of submission now

  split_added :
      (k : TaskKey) (m : AgentTaskMetadata)
      → lookup k (insert (key added) added s.tasks) ≡ some m
      → ((key added ≡ k) × (added ≡ m)) ⊎ ((key added ≢ k) × (lookup k s.tasks ≡ some m))
  split_added k m h = lookup-insert_cases (key added) k added s.tasks h

  keyed_added :
      (k : TaskKey) (m : AgentTaskMetadata)
      → lookup k (insert (key added) added s.tasks) ≡ some m
      → key m ≡ k
  keyed_added k m h = elim (split_added k m h) [
    | inl (e, e') ↦ ap key (sym e') ∙ e
    | inr (ne, h') ↦ c.keyed k m h'
  ]

  sound_added :
      (k : TaskKey) (m : AgentTaskMetadata)
      → lookup k (insert (key added) added s.tasks) ≡ some m
      → IsTask m
  sound_added k m h = elim (split_added k m h) [
    | inl (e, e') ↦ subst IsTask e' (task_of-IsTask submission now room)
    | inr (ne, h') ↦ c.sound k m h'
  ]

  mirrored_added :
      (k : TaskKey) (m : AgentTaskMetadata)
      → lookup k (insert (key added) added s.tasks) ≡ some m
      → lookup (idempotency_key_of m) (insert (idempotency_key_of added) added s.idempotency)
        ≡ some m
  mirrored_added k m h = elim (split_added k m h) [
    | inl (e, e') ↦
        subst
          (λ n.
            lookup (idempotency_key_of n) (insert (idempotency_key_of added) added s.idempotency)
            ≡ some n)
          e' (lookup-insert_self (idempotency_key_of added) added s.idempotency)
    | inr (ne, h') ↦
        rw
          (lookup-insert_ne (idempotency_key_of added) (idempotency_key_of m) added s.idempotency
            (λ e. cc (fresh_idempotency, c.mirrored k m h')))
          (c.mirrored k m h')
  ]

  owned_added :
      (k : TaskKey) (m : AgentTaskMetadata)
      → lookup k (insert (idempotency_key_of added) added s.idempotency) ≡ some m
      → (idempotency_key_of m ≡ k) × (lookup (key m) (insert (key added) added s.tasks) ≡ some m)
  owned_added k m h =
      elim (lookup-insert_cases (idempotency_key_of added) k added s.idempotency {w = m} h) [
        | inl (e, e') ↦ (
          ap idempotency_key_of (sym e') ∙ e,
          subst (λ n. lookup (key n) (insert (key added) added s.tasks) ≡ some n) e'
              (lookup-insert_self (key added) added s.tasks),
        )
        | inr (ne, h') ↦
            let own = c.owned k m h' in
            (
              own.0,
              rw (lookup-insert_ne (key added) (key m) added s.tasks (λ e. cc (fresh, own.1)))
                  own.1,
            )
      ]

  pub admit-IsMirrored : IsMirrored (admit submission now s)
  unfolding admit
  admit-IsMirrored = record {
    dict = insert-IsDict (key added) added s.tasks c.dict;
    keyed = keyed_added;
    sound = sound_added;
    mirrored = mirrored_added;
    owned = owned_added;
  }

-- What a write to another table leaves as it was.
pub same-IsMirrored :
    (s t : Repository)
    → t.tasks ≡ s.tasks
    → t.idempotency ≡ s.idempotency
    → IsMirrored s
    → IsMirrored t
same-IsMirrored s t tasks idempotency c = record {
  dict = rw tasks c.dict;
  keyed = λ k m h. c.keyed k m (rw tasks at h);
  sound = λ k m h. c.sound k m (rw tasks at h);
  mirrored = λ k m h. rw idempotency (c.mirrored k m (rw tasks at h));
  owned = λ k m h. rw tasks (c.owned k m (rw idempotency at h));
}
