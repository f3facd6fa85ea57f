-- ===== src/Agents/Reversible.antt =====
-- services/agent_runtime/proposals.py: what TrustedMaterializer lets through.
use esan_gbos.Prelude.{
  true, false, not, ◌&&◌, Option, none, some, ◌≡◌, both, ◌==◌, string_eq, nat_eq, eq_of_==,
  contains,
}
use esan_gbos.Prelude.Json.{obj, Fields, get}
use esan_gbos.Tasks.Proposals.{Externals}
use esan_gbos.Tasks.Drafts.{allowed_action_types, is_unsafe}
use esan_gbos.Agents.Inputs.{gave}
use esan_gbos.Agents.Bindings.{bind-gave, throw_if-gave, not-false}
use esan_gbos.Agents.Intents.{
  MaterializationEnvelope, MaterializationContext, MaterializationIntent, Formats, payload_of,
}
use esan_gbos.Agents.Materializer.{shape, materialize}
use esan_gbos.Agents.Shapes.{Shaped, choose, submit_intent-Shaped, create_intent-Shaped}

module _ (f : Formats) where
  shape-Shaped :
      (envelope : MaterializationEnvelope) (context : Option MaterializationContext)
      (payload : Fields) (intent : MaterializationIntent)
      → shape f envelope context payload ≡ gave intent
      → Shaped f envelope context intent
  unfolding shape
  shape-Shaped envelope none payload intent h =
      choose (λ m. m ≡ gave intent → Shaped f envelope none intent)
        (envelope.action_type == "internal.work_item.transition.propose") _ _
        (submit_intent-Shaped f envelope none payload intent) (λ e. cc) h
  shape-Shaped envelope (some context) payload intent h =
      choose (λ m. m ≡ gave intent → Shaped f envelope (some context) intent)
        (envelope.action_type == "internal.work_item.transition.propose") _ _
        (submit_intent-Shaped f envelope (some context) payload intent)
        (create_intent-Shaped f envelope context payload intent) h

  -- What materialize accepts, and what it makes of it.
  pub record IsReversible (x : Externals) (envelope : MaterializationEnvelope)
      (context : Option MaterializationContext) (intent : MaterializationIntent) : Type 0 where
    pub draft : (envelope.origin ≡ "AI") × (envelope.review_status ≡ "AI Draft")
    pub allowed : contains envelope.action_type allowed_action_types ≡ true
    pub clean : is_unsafe x (obj envelope.proposal) ≡ false
    pub shaped : Shaped f envelope context intent

  -- An intent that the materializer returns comes of an AI draft with an allowed action and a
  -- proposal without forbidden content. It either submits a work item or a review case, and its
  -- values are exactly the name, the origin AI and the review status Pending; or it creates a work
  -- item, an informal observation or a review case that is an AI draft and refers to the
  -- proposal, under a context; and a review case is of the context's controlled snapshot, which is
  -- the envelope's subject at its revision, and carries the digest of that snapshot.
  pub materialize-IsReversible :
      (x : Externals) (envelope : MaterializationEnvelope) (context : Option MaterializationContext)
      (intent : MaterializationIntent)
      → materialize f x envelope context ≡ gave intent
      → IsReversible x envelope context intent
  unfolding materialize
  materialize-IsReversible x envelope context intent h0 =
      let (drafted', h1) =
        throw_if-gave (not (envelope.origin == "AI" && envelope.review_status == "AI Draft")) _ _
          h0 in
      let (allowed, h2) =
        throw_if-gave (not (contains envelope.action_type allowed_action_types)) _ _ h1 in
      let (clean, h3) = throw_if-gave (is_unsafe x (obj envelope.proposal)) _ _ h2 in
      let (payload, _, h4) = bind-gave (payload_of (get "payload" envelope.proposal)) _ h3 in
      let (origin, status) = both _ _ (not-false _ drafted') in
      record {
        draft = (eq_of_== _ _ origin, eq_of_== _ _ status);
        allowed = not-false _ allowed;
        clean = clean;
        shaped = shape-Shaped envelope context payload intent h4;
      }
