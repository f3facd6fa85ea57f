-- ===== src/Tests/Queue.antt =====
-- services/agent_runtime/repository.py on a queue with one task.
use esan_gbos.Prelude.{
  ap, opt_beq, String, true, false, none, some, List, [], ◌∷◌, ◌≡◌, ◌≢◌, ◌⊎◌, refl, All, pair_eq,
  string_eq, nat_eq, ◌==◌, ◌&&◌, arith,
}
use esan_gbos.Prelude.Int.{pos}
use esan_gbos.Prelude.Dict.{lookup, insert, values}
use esan_gbos.Prelude.Json.{obj, end}
use esan_gbos.Tasks.Errors.{ok, err, lease_conflict, idempotency_conflict}
use esan_gbos.Tasks.Models.{
  TaskStatus, FailureClassification, AgentTaskSubmission, AgentTaskMetadata, is_submission,
}
use esan_gbos.Tasks.Proposals.{Externals}
use esan_gbos.Tasks.Payload.{Patterns}
use esan_gbos.Tasks.Repository.{
  Repository, TaskKey, empty, key, store_task, append_event, move_to_dead_letter, is_live,
  terminal_of,
}
use esan_gbos.Tasks.Lifecycle.{
  enqueue, enqueue_new, admit, task_of, start, heartbeat, succeed, fail,
}
use esan_gbos.Tasks.Claim.{
  claim, reap_expired, bury_all, sort_by_task_id, claim_candidates, select, least, lease_task,
  claimed, is_candidate, is_exhausted,
}
use esan_gbos.Tasks.Run.{Call, enqueues, claims, heartbeats, run}
use esan_gbos.Tasks.Steps.{History, is_dead}
use esan_gbos.Tasks.Records.{IsConsistent}
use esan_gbos.Tasks.Invariance.{empty-IsConsistent}
use esan_gbos.Tasks.Effects.{IsFaultless}
use esan_gbos.Tasks.Runs.{run-IsConsistent, run-IsFaultless}
use esan_gbos.Tasks.Persistence.{Follows, run-Follows}
use esan_gbos.Tasks.Fencing.{aware, other_owner, stale_worker-fenced, claimed-exclusive}
use esan_gbos.Tasks.Submission.{enqueue-enqueue}
use esan_gbos.Tasks.Reaping.{IsSpent, reap_expired-lem, reap_expired-kept}
use esan_gbos.Tasks.Selection.{is_as_urgent}
use esan_gbos.Tasks.Progress.{claim-progress}
use esan_gbos.Tasks.Leasing.{Outcome, claim-Outcome}
use esan_gbos.Tasks.Failing.{Failed, fail-Fails}

abbrev pub ext : Externals
ext = record {
  normalized = λ s. s;
  casefold = λ s. s;
  compact = λ s. s;
  has_direct_pii = λ s. false;
  is_digest = λ s. true;
  payload_digest = λ j. "d";
  bundle_digest = λ t a j is. "b";
  from_isoformat = λ s. some (aware 5);
}

abbrev pub pats : Patterns
pats = record { is_reference = λ s. true; has_direct_pii = λ s. false; folded = λ s. s }

abbrev pub worker : String
worker = "w"

abbrev pub order : AgentTaskSubmission
order = record {
  task_id = "T";
  site_id = "S";
  processing_purpose = "pilot";
  idempotency_key = "K";
  payload_digest = "d";
  payload = obj end;
  agent_type = "a";
  subject_type = "Deal";
  subject_ref = "D1";
  due_at = 10;
  priority = 5;
  max_attempts = 1;
  causation_id = "c";
  correlation_id = "r";
  parent_task_id = none;
}

pub order-valid : is_submission order ≡ true
unfolding is_submission
order-valid = refl

abbrev calls : List Call
calls = enqueues order (aware 10) ∷ claims "S" "w" (aware 20) (pos 30) ∷ []

abbrev later : List Call
later = heartbeats "S" "T" "w" 1 (aware 30) (pos 40) ∷ claims "S" "v" (aware 100) (pos 5) ∷ []

abbrev pub leased_task : AgentTaskMetadata
leased_task = claimed TaskStatus.leased (task_of order 10) "w" 20 30

abbrev pub held : Repository
held = (run ext pats calls empty).1

-- The task is leased by the worker after the two calls.
held-found : lookup ("S", "T") held.tasks ≡ some leased_task
unfolding run enqueue enqueue_new admit claim reap_expired bury_all sort_by_task_id claim_candidates
    select least lease_task store_task append_event lookup insert values empty
held-found = refl

pub held-IsConsistent : IsConsistent held
held-IsConsistent = run-IsConsistent ext pats calls empty empty-IsConsistent (order-valid, (tt, tt))

run-IsConsistent_example : IsConsistent (run ext pats later held).1
run-IsConsistent_example = run-IsConsistent ext pats later held held-IsConsistent (tt, (tt, tt))

run-IsFaultless_example : All IsFaultless (run ext pats later held).0
run-IsFaultless_example = run-IsFaultless ext pats later held held-IsConsistent (tt, (tt, tt))

run-Follows_example :
    (n : AgentTaskMetadata) × (lookup ("S", "T") (run ext pats later held).1.tasks ≡ some n)
    × Follows leased_task n
run-Follows_example =
    run-Follows ext pats later held ("S", "T") leased_task held-IsConsistent (tt, (tt, tt))
      held-found

-- The repository after the submission alone.
abbrev pub waiting : Repository
waiting = (run ext pats (enqueues order (aware 10) ∷ []) empty).1

claim-Outcome_example :
    Outcome
      (reap_expired "S" 20 waiting).1
      "S"
      "w"
      20
      30
      (claim "S" "w" (aware 20) (pos 30) waiting)
claim-Outcome_example =
    claim-Outcome waiting "S" "w" 20 30 (pos 30)
      (run-IsConsistent ext pats (enqueues order (aware 10) ∷ []) empty empty-IsConsistent
        (order-valid, tt))
      refl refl

waiting-found : lookup ("S", "T") waiting.tasks ≡ some (task_of order 10)
unfolding run enqueue enqueue_new admit lookup insert empty
waiting-found = refl

claim-progress_example :
    (old : AgentTaskMetadata) × ((claim "S" "w" (aware 20) (pos 30) waiting).0
      ≡ ok (some (claimed TaskStatus.leased old "w" 20 30)))
    × (is_as_urgent old (task_of order 10) ≡ true)
claim-progress_example =
    claim-progress waiting "S" "w" 20 30 (pos 30) ("S", "T") (task_of order 10)
      (run-IsConsistent ext pats (enqueues order (aware 10) ∷ []) empty empty-IsConsistent
        (order-valid, tt))
      refl refl waiting-found refl (omega arith)

other_worker : leased_task.lease_owner ≢ some "v"
other_worker e = let same : false ≡ true = ap (λ o. opt_beq o (some "v")) e in cc

stale_worker-fenced_example :
    (start "S" "T" "v" 1 (aware 30) held ≡ (err lease_conflict, held))
    × (heartbeat "S" "T" "v" 1 (aware 30) (pos 9) held ≡ (err lease_conflict, held))
    × (succeed "S" "T" "v" 1 (aware 30) ("P" ∷ []) held ≡ (err lease_conflict, held))
    × (fail "S" "T" "v" 1 (aware 30) (aware 40) FailureClassification.internal held
        ≡ (err lease_conflict, held))
stale_worker-fenced_example =
    stale_worker-fenced held "S" "T" "v" 1 30 40 leased_task (pos 9) 9 ("P" ∷ [])
      FailureClassification.internal held-found (other_owner other_worker) refl refl (omega arith)

claimed-exclusive_example :
    (is_candidate "S" 49 leased_task ≡ false)
    × (is_exhausted "S" 49 leased_task ≡ false)
    × (is_live leased_task "w" 1 49 ≡ (worker == worker && leased_task.attempt == 1))
claimed-exclusive_example =
    claimed-exclusive (task_of order 10) TaskStatus.leased "w" "w" "S" 1 20 30 49 refl (omega arith)

fail-Fails_example :
    let r = fail "S" "T" "w" 1 (aware 30) (aware 40) FailureClassification.internal held in
    (new : AgentTaskMetadata) × (r.0 ≡ ok new)
    × (r.1.tasks ≡ insert (key leased_task) new held.tasks)
    × Failed leased_task 30 40 FailureClassification.internal new
fail-Fails_example =
    fail-Fails held "S" "T" "w" 1 30 40 leased_task FailureClassification.internal held-IsConsistent
      held-found refl (omega arith)

abbrev repeated : AgentTaskSubmission
repeated = record order { payload_digest = "other" }

enqueue-enqueue_example :
    ((repeated.payload_digest ≡ order.payload_digest)
      → enqueue repeated (aware 12) waiting ≡ (ok (task_of order 10), waiting))
    × ((repeated.payload_digest ≢ order.payload_digest)
        → enqueue repeated (aware 12) waiting ≡ (err idempotency_conflict, waiting))
unfolding run enqueue enqueue_new admit lookup insert empty
enqueue-enqueue_example =
    enqueue-enqueue empty waiting order repeated (aware 10) 12 (task_of order 10) refl refl refl

reap_expired-lem_example :
    let r = reap_expired "S" 60 held in
    (r.0 ≡ ok tt)
    × History held r.1
    × ((k : TaskKey) (m : AgentTaskMetadata)
        → lookup k r.1.tasks ≡ some m
        → is_exhausted "S" 60 m ≡ false)
reap_expired-lem_example = reap_expired-lem held held-IsConsistent "S" 60

abbrev dead_task : AgentTaskMetadata
dead_task = terminal_of leased_task 60 FailureClassification.internal

reap_expired-kept_example :
    ((is_dead dead_task.status ≡ true)
      × (t : AgentTaskMetadata) × (lookup ("S", "T") held.tasks ≡ some t)
      × IsSpent "S" 60 t)
    ⊎ (lookup ("S", "T") held.tasks ≡ some dead_task)
unfolding run enqueue enqueue_new admit claim reap_expired bury_all sort_by_task_id claim_candidates
    select least lease_task store_task append_event lookup insert values empty move_to_dead_letter
reap_expired-kept_example =
    reap_expired-kept held held-IsConsistent "S" 60 ("S", "T") dead_task refl
