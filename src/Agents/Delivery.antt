-- ===== src/Agents/Delivery.antt =====
-- services/agent_runtime/materialization.py: one round of MaterializationWorker.
use esan_gbos.Prelude.{
  String, not, Option, none, some, [], ◌∷◌, ◌++◌, if◌then◌else◌, ◌==◌, string_eq, nat_eq,
}
use esan_gbos.Tasks.Errors.{validation_error, idempotency_conflict}
use esan_gbos.Tasks.Models.{Datetime}
use esan_gbos.Tasks.Proposals.{Externals}
use esan_gbos.Agents.Worker.{is_lost, later}
use esan_gbos.Agents.Inputs.{Try, threw, gave, queue}
use esan_gbos.Agents.Intents.{MaterializationContext, MaterializationIntent, Formats}
use esan_gbos.Agents.Materializer.{materialize}
use esan_gbos.Agents.Outbox.{
  MaterializationClaim, FrappeDraftReceipt, MaterializationContextRequest, is_context_request,
  Application, Disposition, MaterializationWorker, Clock, World, DeliveryStatus,
  MaterializationRunResult, run_result, application_of, is_receipt_of, error_code_of,
}

abbrev pub Act : Type 0 → Type 0 → Type 0
Act S A = World S → Try A × World S

module _ {S : Type 0} {B : Type 0} where
  abbrev pub next : {A : Type 0} → Try A × World S → (A → Act S B) → Try B × World S
  next (threw e, u) g = (threw e, u)
  next (gave a, u) g = g a u

  infixl 5 ◌>>=◌ ◌>>◌
  abbrev pub ◌>>=◌ : {A : Type 0} → Act S A → (A → Act S B) → Act S B
  ◌>>=◌ m g u = next (m u) g

  abbrev pub ◌>>◌ : Act S (Unit {0}) → Act S B → Act S B
  m >> k = m >>= λ _. k

  abbrev pub lift : Try B → Act S B
  lift r u = (r, u)

  -- A call of the repository.
  abbrev pub stored : (S → Try B × S) → Act S B
  stored call u = let r = call u.store in (r.0, record u { store = r.1 })

module _ {S : Type 0} (x : Externals) (f : Formats) (w : MaterializationWorker S)
    (clock : Clock) where
  abbrev pub context_request : MaterializationClaim → MaterializationContextRequest
  context_request claim = record {
    site_id = claim.site_id;
    task_id = claim.envelope.task_id;
    processing_purpose = claim.envelope.processing_purpose;
    proposal_id = claim.proposal_id;
    subject_type = claim.envelope.subject_type;
    subject_ref = claim.envelope.subject_ref;
    subject_revision = claim.envelope.subject_revision;
  }

  abbrev pub required : Option MaterializationContext → Try (Option MaterializationContext)
  required none = threw (queue validation_error)
  required (some context) = gave (some context)

  abbrev pub resolved : Try (Option MaterializationContext) → Try (Option MaterializationContext)
  resolved (threw e) = threw e
  resolved (gave context) = required context

  -- The context of a claim, for all actions but a transition.
  unfoldable pub context_of : MaterializationClaim → Try (Option MaterializationContext)
  context_of claim =
      if claim.envelope.action_type == "internal.work_item.transition.propose"
      then gave none
      else if not (is_context_request f (context_request claim))
      then threw (queue validation_error)
      else resolved (w.resolve (context_request claim))

  unfoldable pub beat : MaterializationClaim → Datetime → Act S (Unit {0})
  beat claim now = stored (
      w.repository.heartbeat claim.site_id claim.materialization_id w.worker_id claim.attempt now
        w.lease_duration)

  -- FrappeDraftClient.apply
  unfoldable pub apply : Application → Act S FrappeDraftReceipt
  apply application u =
      (w.client u.applied application, record u { applied = u.applied ++ application ∷ [] })

  -- _validate_receipt
  abbrev pub validate_receipt : Application → FrappeDraftReceipt → Try (Unit {0})
  validate_receipt application receipt =
      if is_receipt_of application receipt then gave tt else threw (queue idempotency_conflict)

  unfoldable pub acknowledge : MaterializationClaim → FrappeDraftReceipt → Act S (Unit {0})
  acknowledge claim receipt = stored (
      w.repository.acknowledge claim.site_id claim.materialization_id w.worker_id claim.attempt
        clock.acknowledged_at receipt)

  -- From the client's call on.
  unfoldable pub send : MaterializationClaim → MaterializationIntent → Act S (Unit {0})
  send claim intent = do
    receipt ← apply (application_of x claim intent)
    lift (validate_receipt (application_of x claim intent) receipt)
    acknowledge claim receipt

  -- The body of the try.
  unfoldable pub deliver : MaterializationClaim → Act S (Unit {0})
  deliver claim = do
    beat claim clock.begun_at
    context ← lift (context_of claim)
    intent ← lift (materialize f x claim.envelope context)
    beat claim clock.shaped_at
    send claim intent

  abbrev pub status_of : Option Disposition → DeliveryStatus
  status_of (some Disposition.dead_letter) = DeliveryStatus.dead_letter
  status_of _ = DeliveryStatus.retry

  -- The handlers.
  unfoldable pub settled :
      MaterializationClaim
      → String
      → Try (Option Disposition) × World S
      → Try MaterializationRunResult × World S
  settled claim code (gave disposition, u) =
      (gave (run_result (status_of disposition) claim (some code)), u)
  settled claim code (threw e, u) = (
    if is_lost e
        then gave (run_result DeliveryStatus.lease_lost claim (some "lease_lost"))
        else threw e,
    u,
  )

  unfoldable pub handled :
      MaterializationClaim → Try (Unit {0}) × World S → Try MaterializationRunResult × World S
  handled claim (gave _, u) = (gave (run_result DeliveryStatus.succeeded claim none), u)
  handled claim (threw e, u) =
      if is_lost e
      then (gave (run_result DeliveryStatus.lease_lost claim (some "lease_lost")), u)
      else settled claim (error_code_of e) (
          stored
            (w.repository.fail claim.site_id claim.materialization_id w.worker_id claim.attempt
              clock.failed_at (later clock.retry_from w.retry_delay) (error_code_of e))
            u)

  unfoldable pub begun :
      Try (Option MaterializationClaim) × World S → Try MaterializationRunResult × World S
  begun (threw e, u) = (threw e, u)
  begun (gave none, u) = (
    gave (record {
      status = DeliveryStatus.idle;
      materialization_id = none;
      attempt = none;
      error_code = none;
    }),
    u,
  )
  begun (gave (some claim), u) = handled claim (deliver claim u)

  -- MaterializationWorker.run_once
  unfoldable pub deliver_once : String → Act S MaterializationRunResult
  deliver_once site_id u =
      begun (stored (w.repository.claim site_id w.worker_id clock.claimed_at w.lease_duration) u)
