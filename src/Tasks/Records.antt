-- ===== src/Tasks/Records.antt =====
-- The tables beside the tasks: every task has a payload and a timeline numbered from 0, and a
-- dead letter exactly when it is dead; and what a write of one task does to them.
use esan_gbos.Prelude.{
  ℕ, suc, ◌+◌, Bool, true, false, Option, none, some, List, [], ◌∷◌, ◌++◌, ◌≡◌, sym, ap, ◌∙◌, subst,
  length, pair_eq, inl, inr, arith, Bool-cases, ◌==◌, eq_of_==,
}
use esan_gbos.Prelude.Dict.{Dict, lookup, insert, lookup-insert, lookup-insert_cases}
use esan_gbos.Tasks.Models.{
  TaskStatus, AgentTaskMetadata, TimelineEventMetadata, DeadLetterMetadata,
}
use esan_gbos.Tasks.Repository.{Repository, TaskKey, key}
use esan_gbos.Tasks.Lifecycle.{has}
use esan_gbos.Tasks.Consistency.{IsMirrored, Numbered}
use esan_gbos.Tasks.Steps.{Change, is_dead, is_open, Change-key, Change-open, Change-alive}

abbrev pub is_dead_task : Option AgentTaskMetadata → Bool
is_dead_task none = false
is_dead_task (some m) = is_dead m.status

abbrev pub IsTimeline : Option (List TimelineEventMetadata) → Type 0
IsTimeline none = ⊥
IsTimeline (some events) = Numbered 0 events

pub record IsRecorded (s : Repository) : Type 0 where
  pub timed :
      (k : TaskKey) (m : AgentTaskMetadata)
      → lookup k s.tasks ≡ some m
      → IsTimeline (lookup k s.timeline)
  pub lettered : (k : TaskKey) → has (lookup k s.dead_letters) ≡ is_dead_task (lookup k s.tasks)
  pub paid :
      (k : TaskKey) (m : AgentTaskMetadata)
      → lookup k s.tasks ≡ some m
      → has (lookup k s.payloads) ≡ true

pub record IsConsistent (s : Repository) : Type 0 where
  pub tables : IsMirrored s
  pub records : IsRecorded s

pub Numbered-append :
    (n : ℕ) (events : List TimelineEventMetadata) (event : TimelineEventMetadata)
    → Numbered n events
    → event.sequence ≡ n + length events
    → Numbered n (events ++ event ∷ [])
Numbered-append n [] event h e = (omega arith, tt)
Numbered-append n (x ∷ xs) event h e = (h.0, Numbered-append (suc n) xs event h.1 (omega arith))

-- Where a task is rewritten, the tables that are indexed by tasks keep an entry for it.
found_before :
    (s : Repository) (old new : AgentTaskMetadata) (k : TaskKey) (m : AgentTaskMetadata)
    → lookup (key old) s.tasks ≡ some old
    → key new ≡ key old
    → lookup k (insert (key new) new s.tasks) ≡ some m
    → (n : AgentTaskMetadata) × (lookup k s.tasks ≡ some n)
found_before s old new k m at same_key h =
    elim (lookup-insert_cases (key new) k new s.tasks {w = m} h) [
      | inl (e, _) ↦ (old, ap (λ i. lookup i s.tasks) (sym e ∙ same_key) ∙ at)
      | inr (_, h') ↦ (m, h')
    ]

is_open-alive : (status : TaskStatus) → is_open status ≡ true → is_dead status ≡ false
is_open-alive status h = ground arith

lettered_same :
    (letters : Dict TaskKey DeadLetterMetadata) (tasks : Dict TaskKey AgentTaskMetadata)
    (old new : AgentTaskMetadata) (k : TaskKey)
    → ((j : TaskKey) → has (lookup j letters) ≡ is_dead_task (lookup j tasks))
    → lookup (key old) tasks ≡ some old
    → key new ≡ key old
    → is_dead old.status ≡ false
    → is_dead new.status ≡ false
    → has (lookup k letters) ≡ is_dead_task (lookup k (insert (key new) new tasks))
lettered_same letters tasks old new k all at same alive alive' = elim (Bool-cases (key new == k)) [
  | inl e ↦
      let here : lookup k tasks ≡ some old =
        ap (λ i. lookup i tasks) (sym (eq_of_== (key new) k e) ∙ same) ∙ at in
      rw (lookup-insert (key new) k new tasks, e) (cc (all k, here, alive, alive'))
  | inr e ↦ rw (lookup-insert (key new) k new tasks, e) (all k)
]

lettered_buried :
    (letters : Dict TaskKey DeadLetterMetadata) (tasks : Dict TaskKey AgentTaskMetadata)
    (old new : AgentTaskMetadata) (letter : DeadLetterMetadata) (k : TaskKey)
    → ((j : TaskKey) → has (lookup j letters) ≡ is_dead_task (lookup j tasks))
    → key new ≡ key old
    → is_dead new.status ≡ true
    → has (lookup k (insert (key old) letter letters))
      ≡ is_dead_task (lookup k (insert (key new) new tasks))
lettered_buried letters tasks old new letter k all same dead =
    subst
      (λ i.
        has (lookup k (insert i letter letters))
        ≡ is_dead_task (lookup k (insert (key new) new tasks)))
      same
      (elim (Bool-cases (key new == k)) [
        | inl e ↦
            rw (lookup-insert (key new) k new tasks, lookup-insert (key new) k letter letters, e)
              (sym dead)
        | inr e ↦
            rw (lookup-insert (key new) k new tasks, lookup-insert (key new) k letter letters, e)
              (all k)
      ])

pub changed-IsRecorded :
    (s t : Repository) (old new : AgentTaskMetadata)
    → IsRecorded s
    → lookup (key old) s.tasks ≡ some old
    → Change old new
    → t.tasks ≡ insert (key new) new s.tasks
    → t.payloads ≡ s.payloads
    → t.timeline ≡ s.timeline
    → t.dead_letters ≡ s.dead_letters
    → IsRecorded t
changed-IsRecorded s t old new c at ch tasks payloads timeline dead_letters = record {
  timed = λ k m h.
      let (n, h') = found_before s old new k m at (Change-key ch) (rw tasks at h) in
      rw timeline (c.timed k n h');
  lettered = λ k.
      rw (dead_letters, tasks)
        (lettered_same s.dead_letters s.tasks old new k c.lettered at (Change-key ch)
          (is_open-alive old.status (Change-open ch)) (Change-alive ch));
  paid = λ k m h.
      let (n, h') = found_before s old new k m at (Change-key ch) (rw tasks at h) in
      rw payloads (c.paid k n h');
}

pub buried-IsRecorded :
    (s t : Repository) (old new : AgentTaskMetadata) (letter : DeadLetterMetadata)
    → IsRecorded s
    → lookup (key old) s.tasks ≡ some old
    → key new ≡ key old
    → is_dead new.status ≡ true
    → t.tasks ≡ insert (key new) new s.tasks
    → t.payloads ≡ s.payloads
    → t.timeline ≡ s.timeline
    → t.dead_letters ≡ insert (key old) letter s.dead_letters
    → IsRecorded t
buried-IsRecorded s t old new letter c at same dead tasks payloads timeline dead_letters = record {
  timed = λ k m h.
      let (n, h') = found_before s old new k m at same (rw tasks at h) in
      rw timeline (c.timed k n h');
  lettered = λ k.
      rw (dead_letters, tasks)
        (lettered_buried s.dead_letters s.tasks old new letter k c.lettered same dead);
  paid = λ k m h.
      let (n, h') = found_before s old new k m at same (rw tasks at h) in
      rw payloads (c.paid k n h');
}

timed_noted :
    (timeline : Dict TaskKey (List TimelineEventMetadata)) (k j : TaskKey)
    (events : List TimelineEventMetadata) (event : TimelineEventMetadata)
    → lookup k timeline ≡ some events
    → event.sequence ≡ length events
    → IsTimeline (lookup k timeline)
    → IsTimeline (lookup j timeline)
    → IsTimeline (lookup j (insert k (events ++ event ∷ []) timeline))
timed_noted timeline k j events event at numbered h h' = elim (Bool-cases (k == j)) [
  | inl e ↦
      rw (lookup-insert k j (events ++ event ∷ []) timeline, e)
        (Numbered-append 0 events event (subst IsTimeline at h) (omega arith))
  | inr e ↦ rw (lookup-insert k j (events ++ event ∷ []) timeline, e) h'
]

pub noted-IsRecorded :
    (s t : Repository) (m : AgentTaskMetadata) (events : List TimelineEventMetadata)
    (event : TimelineEventMetadata)
    → IsRecorded s
    → lookup (key m) s.tasks ≡ some m
    → lookup (key m) s.timeline ≡ some events
    → event.sequence ≡ length events
    → t.tasks ≡ s.tasks
    → t.payloads ≡ s.payloads
    → t.timeline ≡ insert (key m) (events ++ event ∷ []) s.timeline
    → t.dead_letters ≡ s.dead_letters
    → IsRecorded t
noted-IsRecorded s t m events event c at found numbered tasks payloads timeline dead_letters =
    record {
      timed = λ k n h. rw timeline (
          timed_noted s.timeline (key m) k events event found numbered (c.timed (key m) m at)
            (c.timed k n (rw tasks at h)));
      lettered = λ k. rw (dead_letters, tasks) (c.lettered k);
      paid = λ k n h. rw payloads (c.paid k n (rw tasks at h));
    }
