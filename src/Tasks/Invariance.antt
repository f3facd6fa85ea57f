-- ===== src/Tasks/Invariance.antt =====
-- Every write on the tables keeps them consistent, and so does a history of writes.
use esan_gbos.Prelude.{
  ℕ, true, none, some, List, ◌≡◌, refl, sym, ap, ◌∙◌, subst, pair_eq, inl, inr, Bool-cases, ◌==◌,
  eq_of_==,
}
use esan_gbos.Prelude.Dict.{
  lookup, insert, lookup-insert, lookup-insert_self, lookup-insert_ne, lookup-insert_cases,
}
use esan_gbos.Prelude.Json.{Json}
use esan_gbos.Tasks.Models.{AgentTaskSubmission, AgentTaskMetadata, TimelineEventMetadata}
use esan_gbos.Tasks.Repository.{Repository, TaskKey, key, empty}
use esan_gbos.Tasks.Lifecycle.{admit, task_of, has}
use esan_gbos.Tasks.Consistency.{Numbered, rewrite-IsMirrored, admit-IsMirrored, same-IsMirrored}
use esan_gbos.Tasks.Steps.{
  Step, History, aside, admitted, changed, buried, noted, here, next, Change-key,
  Change-idempotency_key, Change-IsTask, terminal_of-IsTask,
}
use esan_gbos.Tasks.Records.{
  is_dead_task, IsTimeline, IsRecorded, IsConsistent, changed-IsRecorded, buried-IsRecorded,
  noted-IsRecorded,
}

module _ (s : Repository) (c : IsRecorded s) (submission : AgentTaskSubmission) (now : ℕ)
    (fresh : lookup (submission.site_id, submission.task_id) s.tasks ≡ none) where
  abbrev new_key : TaskKey
  new_key = (submission.site_id, submission.task_id)

  abbrev added : AgentTaskMetadata
  added = task_of submission now

  timed_added :
      (k : TaskKey) (m : AgentTaskMetadata) (events : List TimelineEventMetadata)
      → Numbered 0 events
      → lookup k (insert new_key added s.tasks) ≡ some m
      → IsTimeline (lookup k (insert new_key events s.timeline))
  timed_added k m events numbered h = elim (lookup-insert_cases new_key k added s.tasks {w = m} h) [
    | inl (e, _) ↦
        subst (λ i. IsTimeline (lookup i (insert new_key events s.timeline))) e
          (rw (lookup-insert_self new_key events s.timeline) numbered)
    | inr (ne, h') ↦ rw (lookup-insert_ne new_key k events s.timeline ne) (c.timed k m h')
  ]

  lettered_added :
      (k : TaskKey)
      → has (lookup k s.dead_letters) ≡ is_dead_task (lookup k (insert new_key added s.tasks))
  lettered_added k = elim (Bool-cases (new_key == k)) [
    | inl e ↦
        let absent : lookup k s.tasks ≡ none =
          ap (λ i. lookup i s.tasks) (sym (eq_of_== new_key k e)) ∙ fresh in
        rw (lookup-insert new_key k added s.tasks, e) (cc (c.lettered k, absent))
    | inr e ↦ rw (lookup-insert new_key k added s.tasks, e) (c.lettered k)
  ]

  paid_added :
      (k : TaskKey) (m : AgentTaskMetadata) (payload : Json)
      → lookup k (insert new_key added s.tasks) ≡ some m
      → has (lookup k (insert new_key payload s.payloads)) ≡ true
  paid_added k m payload h = elim (lookup-insert_cases new_key k added s.tasks {w = m} h) [
    | inl (e, _) ↦
        subst (λ i. has (lookup i (insert new_key payload s.payloads)) ≡ true) e
          (rw (lookup-insert_self new_key payload s.payloads))
    | inr (ne, h') ↦ rw (lookup-insert_ne new_key k payload s.payloads ne) (c.paid k m h')
  ]

  admit-IsRecorded : IsRecorded (admit submission now s)
  unfolding admit
  admit-IsRecorded = record {
    timed = λ k m h. timed_added k m _ (refl, tt) h;
    lettered = lettered_added;
    paid = λ k m h. paid_added k m submission.payload h;
  }

aside-IsConsistent :
    (s t : Repository)
    → t.tasks ≡ s.tasks
    → t.payloads ≡ s.payloads
    → t.idempotency ≡ s.idempotency
    → t.timeline ≡ s.timeline
    → t.dead_letters ≡ s.dead_letters
    → IsConsistent s
    → IsConsistent t
aside-IsConsistent s t tasks payloads idempotency timeline dead_letters c = record {
  tables = same-IsMirrored s t tasks idempotency c.tables;
  records = record {
    timed = λ k m h. rw timeline (c.records.timed k m (rw tasks at h));
    lettered = λ k. rw (dead_letters, tasks) (c.records.lettered k);
    paid = λ k m h. rw payloads (c.records.paid k m (rw tasks at h));
  };
}

-- Every write keeps the tables consistent.
pub Step-IsConsistent : {s t : Repository} → Step s t → IsConsistent s → IsConsistent t
Step-IsConsistent {s} {t} (aside a b d e f) c = aside-IsConsistent s t a b d e f c
Step-IsConsistent {s} (admitted sub now room fi ft e) c = rw e (record {
  tables = admit-IsMirrored s c.tables sub now room fi ft;
  records = admit-IsRecorded s c.records sub now ft;
})
Step-IsConsistent {s} {t} (changed old new at ch tasks payloads idem timeline dead) c = record {
  tables =
      rewrite-IsMirrored s t c.tables old new at (Change-key ch) (Change-idempotency_key ch)
        (Change-IsTask ch (c.tables.sound (key old) old at)) tasks idem;
  records = changed-IsRecorded s t old new c.records at ch tasks payloads timeline dead;
}
Step-IsConsistent {s} {t} (buried old new now cl letter at act e tasks payloads idem timeline dead)
      c =
    record {
      tables =
          rewrite-IsMirrored s t c.tables old new at (cc) (cc)
            (rw e (terminal_of-IsTask old now cl (c.tables.sound (key old) old at))) tasks idem;
      records =
          buried-IsRecorded s t old new letter c.records at (cc) (rw e) tasks payloads timeline
            dead;
    }
Step-IsConsistent {s} {t} (noted m events event at found numbered tasks payloads idem timeline dead)
      c =
    record {
      tables = same-IsMirrored s t tasks idem c.tables;
      records =
          noted-IsRecorded s t m events event c.records at found numbered tasks payloads timeline
            dead;
    }

pub History-IsConsistent : {s t : Repository} → History s t → IsConsistent s → IsConsistent t
History-IsConsistent here c = c
History-IsConsistent (next h st) c = Step-IsConsistent st (History-IsConsistent h c)

-- A new repository is consistent.
pub empty-IsConsistent : IsConsistent empty
unfolding empty lookup
empty-IsConsistent = record {
  tables = record {
    dict = tt;
    keyed = λ k m h. cc;
    sound = λ k m h. cc;
    mirrored = λ k m h. cc;
    owned = λ k m h. cc;
  };
  records = record { timed = λ k m h. cc; lettered = λ k. refl; paid = λ k m h. cc };
}
