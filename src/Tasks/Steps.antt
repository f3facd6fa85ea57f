-- ===== src/Tasks/Steps.antt =====
-- The moves of the task queue: how one write changes a task, which writes a method makes, and the
-- histories that writes form. Every method's effect is shown to be such a history.
use esan_gbos.Prelude.{
  ℕ, ◌≤◌, ◌<◌, String, Bool, true, false, Option, none, some, List, [], ◌∷◌, ◌++◌, ◌≡◌, length,
  pair_eq, arith, ◌||◌, both, leb→le,
}
use esan_gbos.Prelude.Dict.{lookup, insert}
use esan_gbos.Tasks.Models.{
  TaskStatus, FailureClassification, AgentTaskSubmission, AgentTaskMetadata, TimelineEventMetadata,
  DeadLetterMetadata, is_submission,
}
use esan_gbos.Tasks.Repository.{
  Repository, is_leased, is_waiting, key, idempotency_key_of, terminal_of,
}
use esan_gbos.Tasks.Lifecycle.{started, renewed, finished, retried, task_of, admit}
use esan_gbos.Tasks.Claim.{claimed}

abbrev pub is_dead : TaskStatus → Bool
is_dead TaskStatus.dead_letter = true
is_dead _ = false

-- The task can still move.
abbrev pub is_open : TaskStatus → Bool
is_open status = is_waiting status || is_leased status

abbrev pub is_held : Option String → Bool
is_held none = false
is_held (some _) = true

abbrev pub is_timed : Option ℕ → Bool
is_timed none = false
is_timed (some _) = true

-- What every stored task satisfies: attempts stay within the budget, which is at most 100, as is
-- the priority; a task that waits has an attempt left, and exactly the leased and running tasks
-- have an owner and a deadline.
pub record IsTask (m : AgentTaskMetadata) : Type 0 where
  pub budget : m.attempt ≤ m.max_attempts
  pub quota : m.max_attempts ≤ 100
  pub urgency : m.priority ≤ 100
  pub spare : is_waiting m.status ≡ true → m.attempt < m.max_attempts
  pub owner : is_held m.lease_owner ≡ is_leased m.status
  pub deadline : is_timed m.lease_expires_at ≡ is_leased m.status

-- How a method rewrites a task.
pub data Change (old new : AgentTaskMetadata) : Type 0 where
  lease :
      (status : TaskStatus) (worker_id : String) (now duration : ℕ)
      → is_leased status ≡ true
      → is_open old.status ≡ true
      → old.attempt < old.max_attempts
      → new ≡ claimed status old worker_id now duration
      → Change old new
  begin : (now : ℕ) → is_leased old.status ≡ true → new ≡ started old now → Change old new
  renew :
      (now duration : ℕ)
      → is_leased old.status ≡ true
      → new ≡ renewed old now duration
      → Change old new
  finish :
      (refs : List String) (now : ℕ)
      → is_leased old.status ≡ true
      → new ≡ finished old refs now
      → Change old new
  retry :
      (now retry_at : ℕ) (classification : FailureClassification)
      → is_leased old.status ≡ true
      → old.attempt < old.max_attempts
      → new ≡ retried old now retry_at classification
      → Change old new

-- One write.
pub data Step (s t : Repository) : Type 0 where
  -- a table that says nothing of the tasks' states
  aside :
      t.tasks ≡ s.tasks
      → t.payloads ≡ s.payloads
      → t.idempotency ≡ s.idempotency
      → t.timeline ≡ s.timeline
      → t.dead_letters ≡ s.dead_letters
      → Step s t
  admitted :
      (submission : AgentTaskSubmission) (now : ℕ)
      → is_submission submission ≡ true
      → lookup (submission.site_id, submission.idempotency_key) s.idempotency ≡ none
      → lookup (submission.site_id, submission.task_id) s.tasks ≡ none
      → t ≡ admit submission now s
      → Step s t
  changed :
      (old new : AgentTaskMetadata)
      → lookup (key old) s.tasks ≡ some old
      → Change old new
      → t.tasks ≡ insert (key new) new s.tasks
      → t.payloads ≡ s.payloads
      → t.idempotency ≡ insert (idempotency_key_of new) new s.idempotency
      → t.timeline ≡ s.timeline
      → t.dead_letters ≡ s.dead_letters
      → Step s t
  buried :
      (old new : AgentTaskMetadata) (now : ℕ) (classification : FailureClassification)
      (letter : DeadLetterMetadata)
      → lookup (key old) s.tasks ≡ some old
      → is_leased old.status ≡ true
      → new ≡ terminal_of old now classification
      → t.tasks ≡ insert (key new) new s.tasks
      → t.payloads ≡ s.payloads
      → t.idempotency ≡ insert (idempotency_key_of new) new s.idempotency
      → t.timeline ≡ s.timeline
      → t.dead_letters ≡ insert (key old) letter s.dead_letters
      → Step s t
  noted :
      (m : AgentTaskMetadata) (events : List TimelineEventMetadata) (event : TimelineEventMetadata)
      → lookup (key m) s.tasks ≡ some m
      → lookup (key m) s.timeline ≡ some events
      → event.sequence ≡ length events
      → t.tasks ≡ s.tasks
      → t.payloads ≡ s.payloads
      → t.idempotency ≡ s.idempotency
      → t.timeline ≡ insert (key m) (events ++ event ∷ []) s.timeline
      → t.dead_letters ≡ s.dead_letters
      → Step s t

pub data History (s : Repository) : Repository → Type 0 where
  here : History s s
  next : {t u : Repository} → History s t → Step t u → History s u

pub join : {s t u : Repository} → History s t → History t u → History s u
join h here = h
join h (next k st) = next (join h k) st

pub one : {s t : Repository} → Step s t → History s t
one st = next here st

-- No change touches what a task is identified by, or how many attempts it may have.
pub Change-key : {old new : AgentTaskMetadata} → Change old new → key new ≡ key old
Change-key (lease _ _ _ _ _ _ _ e) = cc
Change-key (begin _ _ e) = cc
Change-key (renew _ _ _ e) = cc
Change-key (finish _ _ _ e) = cc
Change-key (retry _ _ _ _ _ e) = cc

pub Change-idempotency_key :
    {old new : AgentTaskMetadata} → Change old new → idempotency_key_of new ≡ idempotency_key_of old
Change-idempotency_key (lease _ _ _ _ _ _ _ e) = cc
Change-idempotency_key (begin _ _ e) = cc
Change-idempotency_key (renew _ _ _ e) = cc
Change-idempotency_key (finish _ _ _ e) = cc
Change-idempotency_key (retry _ _ _ _ _ e) = cc

pub Change-IsTask : {old new : AgentTaskMetadata} → Change old new → IsTask old → IsTask new
Change-IsTask (lease s w n d act open_ room e) v = rw e (ground arith)
Change-IsTask (begin _ act e) v = rw e (ground arith)
Change-IsTask (renew _ _ act e) v = rw e (ground arith)
Change-IsTask (finish _ _ act e) v = rw e (ground arith)
Change-IsTask (retry _ _ _ act room e) v = rw e (ground arith)

pub terminal_of-IsTask :
    (old : AgentTaskMetadata) (now : ℕ) (classification : FailureClassification)
    → IsTask old
    → IsTask (terminal_of old now classification)
terminal_of-IsTask old now classification v = ground arith

is_submission-lem :
    (submission : AgentTaskSubmission)
    → is_submission submission ≡ true
    → (submission.priority ≤ 100) × (1 ≤ submission.max_attempts) × (submission.max_attempts ≤ 100)
unfolding is_submission
is_submission-lem submission h =
    let (_, rest) = both _ _ h in
    let (urgency, rest1) = both _ _ rest in
    let (room, rest2) = both _ _ rest1 in
    let (quota, _) = both _ _ rest2 in (leb→le _ _ urgency, leb→le _ _ room, leb→le _ _ quota)

pub task_of-IsTask :
    (submission : AgentTaskSubmission) (now : ℕ)
    → is_submission submission ≡ true
    → IsTask (task_of submission now)
task_of-IsTask submission now h =
    let (first, most, least) = is_submission-lem submission h in ground arith

pub Change-open : {old new : AgentTaskMetadata} → Change old new → is_open old.status ≡ true
Change-open (lease _ _ _ _ _ h _ _) = h
Change-open (begin _ h _) = ground arith
Change-open (renew _ _ h _) = ground arith
Change-open (finish _ _ h _) = ground arith
Change-open (retry _ _ _ h _ _) = ground arith

pub Change-alive : {old new : AgentTaskMetadata} → Change old new → is_dead new.status ≡ false
Change-alive (lease s _ _ _ act _ _ e) = rw e (ground arith)
Change-alive (begin _ h e) = rw e
Change-alive (renew _ _ h e) = rw e (ground arith)
Change-alive (finish _ _ h e) = rw e
Change-alive (retry _ _ _ h _ e) = rw e
