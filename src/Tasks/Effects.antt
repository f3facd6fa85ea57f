-- ===== src/Tasks/Effects.antt =====
-- What the shared helpers of the repository do in a consistent state, as histories of writes.
use esan_gbos.Prelude.{
  ℕ, String, Bool, true, false, Option, none, some, ◌≡◌, ◌≢◌, refl, sym, subst, pair_eq, inl, inr,
  ◌⊎◌, arith, Option-cases, Bool-cases,
}
use esan_gbos.Prelude.Dict.{lookup, insert, lookup-insert_self}
use esan_gbos.Tasks.Errors.{Error, key_error, task_not_found, lease_conflict, Result, ok, err}
use esan_gbos.Tasks.Models.{
  EventType, ActorType, FailureClassification, ReasonCode, AgentTaskMetadata,
}
use esan_gbos.Tasks.Repository.{
  Repository, key, is_live, is_leased, store_task, append_event, require_live_lease,
  move_to_dead_letter, terminal_of, letter_of, Action, ◌>>=◌, ◌>>◌, lift, refuse, found, pure,
  after, actor_of,
}
use esan_gbos.Tasks.Records.{IsConsistent, IsTimeline}
use esan_gbos.Tasks.Invariance.{Step-IsConsistent}
use esan_gbos.Tasks.Steps.{Change, Step, History, changed, buried, noted, here, next, one}

-- The result is no KeyError.
abbrev pub IsFaultless {ℓ} : {A : Type ℓ} → Result A → Type 0
IsFaultless (ok _) = Unit
IsFaultless (err e) = e ≢ key_error

-- A call reaches its state by writes, and does not fail by a missing key.
pub record Effect {A : Type 0} (s : Repository) (r : Result A × Repository) : Type 0 where
  pub reached : History s r.1
  pub faultless : IsFaultless r.0

pub refused :
    {A : Type 0} {s : Repository} {e : Error} → e ≢ key_error → Effect {A = A} s (err e, s)
refused h = record { reached = here; faultless = h }

module _ (s : Repository) (c : IsConsistent s) (m : AgentTaskMetadata)
    (at : lookup (key m) s.tasks ≡ some m) (event_type : EventType) (now : ℕ)
    (actor_type : ActorType) (actor_ref : Option String) where
  -- A task of a consistent repository has a timeline, so its event is appended.
  pub append_event-noted :
      let r = append_event m event_type now actor_type actor_ref s in
      (r.0 ≡ ok tt) × Step s r.1 × (r.1.tasks ≡ s.tasks)
  unfolding append_event
  append_event-noted = elim (Option-cases (lookup (key m) s.timeline)) [
    | inl absent ↦ absurd (subst IsTimeline absent (c.records.timed (key m) m at))
    | inr (events, found) ↦
        rw (found, append_event)
          (refl, noted m events _ at found refl refl refl refl refl refl, refl)
  ]

-- _require_live_lease leaves the state alone; it gives the task exactly when its lease is live.
pub lease_outcome :
    (s : Repository) (site_id task_id worker_id : String) (attempt now : ℕ)
    → let r = require_live_lease site_id task_id worker_id attempt now s in
      ((lookup (site_id, task_id) s.tasks ≡ none) × (r ≡ (err task_not_found, s)))
      ⊎ ((task : AgentTaskMetadata) × (lookup (site_id, task_id) s.tasks ≡ some task)
          × (((is_live task worker_id attempt now ≡ false) × (r ≡ (err lease_conflict, s)))
              ⊎ ((is_live task worker_id attempt now ≡ true) × (r ≡ (ok task, s)))))
unfolding require_live_lease
lease_outcome s site_id task_id worker_id attempt now =
    elim (Option-cases (lookup (site_id, task_id) s.tasks)) [
      | inl absent ↦ inl (absent, ground arith)
      | inr (task, at) ↦ elim (Bool-cases (is_live task worker_id attempt now)) [
        | inl held ↦ inr (task, at, inr (held, ground arith))
        | inr lost ↦ inr (task, at, inl (lost, ground arith))
      ]
    ]

-- One rule for each way in which a method goes on or raises, for any statement of the outcome.
module _ {B : Type 0} (P : Result B × Repository → Type 0) (s : Repository) where
  pub lift_rule :
      {A : Type 0} (r : Result A) (f : A → Action B)
      → ((e : Error) → r ≡ err e → P (err e, s))
      → ((a : A) → r ≡ ok a → P (f a s))
      → P ((lift r >>= f) s)
  lift_rule (ok a) f bad good = good a refl
  lift_rule (err e) f bad good = bad e refl

  pub refuse_rule :
      (test : Bool) (e : Error) (k : Action B)
      → (test ≡ true → P (err e, s))
      → (test ≡ false → P (k s))
      → P ((refuse test e >> k) s)
  refuse_rule true e k bad good = bad refl
  refuse_rule false e k bad good = good refl

  pub found_rule :
      {A : Type 0} (o : Option A) (e : Error) (f : A → Action B)
      → (o ≡ none → P (err e, s))
      → ((a : A) → o ≡ some a → P (f a s))
      → P ((found o e >>= f) s)
  found_rule none e f bad good = bad refl
  found_rule (some a) e f bad good = good a refl

  -- A lease that is refused leaves the state alone; one that is granted shows a live task.
  pub lease_rule :
      (site_id task_id worker_id : String) (attempt now : ℕ) (f : AgentTaskMetadata → Action B)
      → (lookup (site_id, task_id) s.tasks ≡ none → P (err task_not_found, s))
      → ((task : AgentTaskMetadata)
          → lookup (site_id, task_id) s.tasks ≡ some task
          → is_live task worker_id attempt now ≡ false
          → P (err lease_conflict, s))
      → ((task : AgentTaskMetadata)
          → lookup (site_id, task_id) s.tasks ≡ some task
          → is_live task worker_id attempt now ≡ true
          → P (f task s))
      → P ((require_live_lease site_id task_id worker_id attempt now >>= f) s)
  lease_rule site_id task_id worker_id attempt now f missing dead live =
      elim (lease_outcome s site_id task_id worker_id attempt now) [
        | inl (absent, e) ↦ subst (λ r. P (after r f)) (sym e) (missing absent)
        | inr (task, at, split) ↦ elim split [
          | inl (lost, e) ↦ subst (λ r. P (after r f)) (sym e) (dead task at lost)
          | inr (held, e) ↦ subst (λ r. P (after r f)) (sym e) (live task at held)
        ]
      ]

-- The same where the refusal is the last thing that is done.
pub refuse_last :
    (P : Result (Unit {0}) × Repository → Type 0) (s : Repository) (test : Bool) (e : Error)
    → (test ≡ true → P (err e, s))
    → (test ≡ false → P (ok tt, s))
    → P (refuse test e s)
refuse_last P s true e bad good = bad refl
refuse_last P s false e bad good = good refl

-- Storing a changed task under its own keys is one write.
module _ (s : Repository) (c : IsConsistent s) (old new : AgentTaskMetadata)
    (at : lookup (key old) s.tasks ≡ some old) (ch : Change old new) where
  pub store_task-changed : Step s (store_task new s)
  unfolding store_task
  store_task-changed = changed old new at ch refl refl refl refl refl

  pub store_task-stored : lookup (key new) (store_task new s).tasks ≡ some new
  unfolding store_task
  store_task-stored = lookup-insert_self (key new) new s.tasks

  -- Storing it and noting an event are two, and the event is always noted.
  pub record_change :
      (event_type : EventType) (now : ℕ) (actor_type : ActorType) (actor_ref : Option String)
      → let r = append_event new event_type now actor_type actor_ref (store_task new s) in
        (r.0 ≡ ok tt) × History s r.1 × (r.1.tasks ≡ insert (key new) new s.tasks)
  unfolding store_task
  record_change event_type now actor_type actor_ref =
      let written =
        append_event-noted (store_task new s) (Step-IsConsistent store_task-changed c) new
          store_task-stored event_type now actor_type actor_ref in
      (written.0, next (one store_task-changed) written.1, written.2)

pub after-ok :
    {B : Type 0} (r : Result (Unit {0}) × Repository) (b : B)
    → r.0 ≡ ok tt
    → after r (λ _. pure b) ≡ (ok b, r.1)
after-ok (ok _, u) b e = refl
after-ok (err _, u) b e = cc

pub IsFaultless-of_ok : {B : Type 0} (r : Result B) {b : B} → r ≡ ok b → IsFaultless r
IsFaultless-of_ok (ok _) e = tt
IsFaultless-of_ok (err _) e = cc

-- A call that appends an event and then returns goes through.
pub noted_rule :
    {B : Type 0} (s : Repository) (r : Result (Unit {0}) × Repository) (b : B)
    → r.0 ≡ ok tt
    → History s r.1
    → Effect s (after r (λ _. pure b))
noted_rule s (ok _, u) b e h = record { reached = h; faultless = tt }
noted_rule s (err _, u) b e h = cc

-- _move_to_dead_letter on a leased task that the repository holds.
module _ (s : Repository) (c : IsConsistent s) (task : AgentTaskMetadata)
    (at : lookup (key task) s.tasks ≡ some task) (leased : is_leased task.status ≡ true) (now : ℕ)
    (classification : FailureClassification) (reason_code : ReasonCode)
    (actor_ref : Option String) where
  -- The state with the dead task and its letter, before the event.
  abbrev buried_state : Repository
  buried_state = record (store_task (terminal_of task now classification) s) {
    dead_letters = insert (key task) (letter_of task now classification reason_code) s.dead_letters;
  }

  bury-Step : Step s buried_state
  unfolding store_task
  bury-Step =
      buried task (terminal_of task now classification) now classification
        (letter_of task now classification reason_code) at leased refl refl refl refl refl refl

  pub move_to_dead_letter-buried :
      let r = move_to_dead_letter task now classification reason_code actor_ref s in
      (r.0 ≡ ok (terminal_of task now classification))
      × History s r.1
      × (r.1.tasks ≡ insert (key task) (terminal_of task now classification) s.tasks)
  unfolding move_to_dead_letter store_task
  move_to_dead_letter-buried =
      let new = terminal_of task now classification in
      let written =
        append_event-noted buried_state (Step-IsConsistent bury-Step c) new
          (lookup-insert_self (key new) new s.tasks) EventType.dead_lettered now
          (actor_of actor_ref) actor_ref in
      subst (λ q. (q.0 ≡ ok new) × History s q.1 × (q.1.tasks ≡ insert (key task) new s.tasks))
        (sym (after-ok _ new written.0)) (refl, next (one bury-Step) written.1, written.2)
