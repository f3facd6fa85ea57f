-- ===== src/Agents/Deliveries.antt =====
-- services/agent_runtime/materialization.py: what a round of MaterializationWorker does.
use esan_gbos.Prelude.{String, true, false, Option, none, some, List, [], ◌∷◌, ◌++◌, ◌≡◌, string_eq}
use esan_gbos.Tasks.Proposals.{Externals}
use esan_gbos.Agents.Worker.{is_lost}
use esan_gbos.Agents.Inputs.{Exception, Try, threw, gave}
use esan_gbos.Agents.Intents.{MaterializationContext, MaterializationIntent, Formats}
use esan_gbos.Agents.Reversible.{IsReversible}
use esan_gbos.Agents.Outbox.{
  MaterializationClaim, FrappeDraftReceipt, Application, MaterializationWorker, Clock, World,
  DeliveryStatus, MaterializationRunResult, run_result, application_of, is_receipt_of, Disposition,
  error_code_of,
}
use esan_gbos.Agents.Delivery.{status_of, handled}

module _ {S : Type 0} (x : Externals) (f : Formats) (w : MaterializationWorker S)
    (clock : Clock) where
  -- What the body of the try asked of the client.
  pub data Sent (claim : MaterializationClaim) (before : List Application)
      : Try (Unit {0}) → List Application → Type 0 where
    -- nothing
    unsent : (e : Exception) → Sent claim before (threw e) before
    -- one application of an intent that the materializer made of the claim's envelope; where the
    -- body went through, the client's receipt was for it
    sent :
        (context : Option MaterializationContext) (intent : MaterializationIntent)
        (r : Try (Unit {0}))
        → IsReversible f x claim.envelope context intent
        → (r ≡ gave tt
            → (receipt : FrappeDraftReceipt) × (w.client before (application_of x claim intent)
                ≡ gave receipt)
              × (is_receipt_of (application_of x claim intent) receipt ≡ true))
        → Sent claim before r (before ++ application_of x claim intent ∷ [])

  abbrev Sends : MaterializationClaim → World S → Try (Unit {0}) × World S → Type 0
  Sends claim u r = Sent claim u.applied r.0 r.1.applied

  -- What a round answers, by how the body of the try ended.
  pub data Answer (claim : MaterializationClaim)
      : Try (Unit {0}) → Try MaterializationRunResult → Type 0 where
    delivered : Answer claim (gave tt) (gave (run_result DeliveryStatus.succeeded claim none))
    -- the failure is recorded under its code
    recorded :
        (e : Exception) (disposition : Option Disposition)
        → is_lost e ≡ false
        → Answer claim
            (threw e)
            (gave (run_result (status_of x f w clock disposition) claim (some (error_code_of e))))
    -- the lease was lost, in the body or when the failure was to be recorded
    lost :
        (e : Exception)
        → Answer claim
            (threw e)
            (gave (run_result DeliveryStatus.lease_lost claim (some "lease_lost")))
    -- recording the failure raised
    unrecorded : (e e' : Exception) → is_lost e' ≡ false → Answer claim (threw e) (threw e')

  -- A round of run_once.
  pub data Delivered (site_id : String) (u : World S)
      : Try MaterializationRunResult → List Application → Type 0 where
    refused :
        (e : Exception)
        → (w.repository.claim site_id w.worker_id clock.claimed_at w.lease_duration u.store).0
          ≡ threw e
        → Delivered site_id u (threw e) u.applied
    waits :
        (w.repository.claim site_id w.worker_id clock.claimed_at w.lease_duration u.store).0
          ≡ gave none
        → Delivered site_id u
            (gave (record {
              status = DeliveryStatus.idle;
              materialization_id = none;
              attempt = none;
              error_code = none;
            }))
            u.applied
    worked :
        (claim : MaterializationClaim) (r : Try (Unit {0})) (out : Try MaterializationRunResult)
        (applied : List Application)
        → (w.repository.claim site_id w.worker_id clock.claimed_at w.lease_duration u.store).0
          ≡ gave (some claim)
        → Sent claim u.applied r applied
        → Answer claim r out
        → Delivered site_id u out applied

  -- The handlers call nothing but the repository.
  abbrev Handles : MaterializationClaim → Try (Unit {0}) × World S → Type 0
  Handles claim r =
      let out = handled x f w clock claim r in
      Answer claim r.0 out.0 × (out.1.applied ≡ r.1.applied)
