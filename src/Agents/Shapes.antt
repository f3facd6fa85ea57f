-- ===== src/Agents/Shapes.antt =====
-- services/agent_runtime/proposals.py: the intents that TrustedMaterializer makes.
use Prim.Native.String.{count}
use esan_gbos.Prelude.{
  ℕ, String, Bool, true, false, not, ◌&&◌, ◌||◌, ltb, Option, none, some, List, [], ◌∷◌, ◌≡◌, refl,
  sym, ap, subst, both, ◌==◌, string_eq, nat_eq, eq_of_==, contains, if◌then◌else◌,
}
use esan_gbos.Prelude.Json.{
  Json, null, boolean, num, float, str, arr, obj, Fields, end, field, get, keys,
}
use esan_gbos.Tasks.Errors.{validation_error}
use esan_gbos.Tasks.Documents.{same_keys, as_str}
use esan_gbos.Agents.Inputs.{Exception, Try, threw, gave, queue, fault, or_throw}
use esan_gbos.Agents.Bindings.{bind-gave, throw_if-gave, gave_injective, or_throw-gave, not-false}
use esan_gbos.Agents.Intents.{
  MaterializationEnvelope, MaterializationContext, create, submit, MaterializationIntent, Formats,
  target_doctypes, target_of, is_str, is_false, submit_intent,
}
use esan_gbos.Agents.Materializer.{
  require_text, frappe_payload_digest, is_revision, trusted_evidence_refs, work_item_intent,
  observation_intent, review_case_intent, create_intent,
}

-- The values of an AI draft that refers to a proposal.
pub record IsAiDraft (proposal_id : String) (values : Fields) : Type 0 where
  pub origin : get "origin" values ≡ some (str "AI")
  pub review_status : get "review_status" values ≡ some (str "AI Draft")
  pub origin_reference : get "origin_reference" values ≡ some (str proposal_id)

abbrev pub draft_doctypes : List String
draft_doctypes = "GBOS Work Item" ∷ "GBOS Informal Observation" ∷ []

-- A snapshot that is the envelope's subject, at its revision, with the digest that is written.
pub record IsSubject (f : Formats) (envelope : MaterializationEnvelope)
    (context : MaterializationContext) (snapshot values : Fields) : Type 0 where
  pub controlled : context.subject_snapshot ≡ some snapshot
  pub doctype : is_str (get "doctype" snapshot) (f.strip envelope.subject_type) ≡ true
  pub name : is_str (get "name" snapshot) (f.strip envelope.subject_ref) ≡ true
  pub revision : is_revision f (get "revision" snapshot) envelope.subject_revision ≡ true
  pub digest : get "subject_payload_sha256" values ≡ some (str (frappe_payload_digest f snapshot))

-- The intents that can come of an envelope.
pub data Shaped (f : Formats) (envelope : MaterializationEnvelope)
    : Option MaterializationContext → MaterializationIntent → Type 0 where
  submitted :
      (context : Option MaterializationContext) (doctype : String) (name : Json)
      → contains doctype target_doctypes ≡ true
      → Shaped f envelope context (record {
        operation = submit;
        doctype = doctype;
        values =
            field "name" name
              (field "origin" (str "AI") (field "review_status" (str "Pending") end));
      })
  drafted :
      (context : MaterializationContext) (doctype : String) (values : Fields)
      → contains doctype draft_doctypes ≡ true
      → IsAiDraft (f.strip envelope.proposal_id) values
      → Shaped f envelope
          (some context)
          (record { operation = create; doctype = doctype; values = values })
  reviewed :
      (context : MaterializationContext) (snapshot values : Fields)
      → IsSubject f envelope context snapshot values
      → IsAiDraft (f.strip envelope.proposal_id) values
      → Shaped f envelope
          (some context)
          (record { operation = create; doctype = "GBOS Review Case"; values = values })

pub if-gave :
    {A : Type 0} (b : Bool) (k : Try A) (e : Exception) {v : A}
    → (if b then k else threw e) ≡ gave v
    → (b ≡ true) × (k ≡ gave v)
if-gave true k e h = (refl, h)
if-gave false k e h = cc

unless-gave :
    {A : Type 0} (b : Bool) (k : Try A) (e : Exception) {v : A}
    → (if b then threw e else k) ≡ gave v
    → k ≡ gave v
unless-gave true k e h = cc
unless-gave false k e h = h

target_of-target :
    (value : Option Json) (doctype : String)
    → target_of value ≡ gave doctype
    → contains doctype target_doctypes ≡ true
target_of-target (some (str s)) doctype h =
    let (among, same) = if-gave (contains s target_doctypes) _ _ h in
    subst (λ d. contains d target_doctypes ≡ true) (gave_injective same) among
target_of-target none doctype h = cc
target_of-target (some null) doctype h = cc
target_of-target (some (boolean _)) doctype h = cc
target_of-target (some (num _)) doctype h = cc
target_of-target (some (float _)) doctype h = cc
target_of-target (some (arr _)) doctype h = cc
target_of-target (some (obj _)) doctype h = cc

pub submit_intent-Shaped :
    (f : Formats) (envelope : MaterializationEnvelope) (context : Option MaterializationContext)
    (payload : Fields) (intent : MaterializationIntent)
    → submit_intent payload ≡ gave intent
    → Shaped f envelope context intent
unfolding submit_intent
submit_intent-Shaped f envelope context payload intent h0 =
    let (_, h1) =
      throw_if-gave
        (not (
          same_keys (keys payload)
            ("target_doctype" ∷ "target_ref" ∷ "from_review_status" ∷ "to_review_status" ∷ [])))
        _ _ h0 in
    let (doctype, target, h2) = bind-gave (target_of (get "target_doctype" payload)) _ h1 in
    let (_, h3) =
      throw_if-gave
        (not (
          is_str (get "from_review_status" payload) "AI Draft"
          && is_str (get "to_review_status" payload) "Pending"))
        _ _ h2 in
    let (name, _, h4) = bind-gave (or_throw (get "target_ref" payload) fault) _ h3 in
    subst (Shaped f envelope context) (gave_injective h4)
      (submitted context doctype name (target_of-target (get "target_doctype" payload) _ target))

-- A statement of a choice that holds of both.
pub choose :
    {A : Type 0} (P : Try A → Type 0) (b : Bool) (m n : Try A) → P m → P n → P (if b then m else n)
choose P true m n h k = h
choose P false m n h k = k

module _ (f : Formats) where
  require_text-strip :
      (value : String) (maximum : ℕ) {text : String}
      → require_text f (some value) maximum ≡ gave text
      → text ≡ f.strip value
  require_text-strip value maximum h = sym (
      gave_injective
        (unless-gave (f.strip value == "" || ltb maximum (count (f.strip value))) _ _ h))

  work_item_intent-Shaped :
      (envelope : MaterializationEnvelope) (context : MaterializationContext)
      (team proposal_id title : String) (intent : MaterializationIntent)
      → proposal_id ≡ f.strip envelope.proposal_id
      → work_item_intent f envelope team proposal_id title ≡ gave intent
      → Shaped f envelope (some context) intent
  unfolding work_item_intent
  work_item_intent-Shaped envelope context team proposal_id title intent e h0 =
      let (subject_type, _, h1) =
        bind-gave (require_text f (some envelope.subject_type) 140) _ h0 in
      let (subject_ref, _, h2) = bind-gave (require_text f (some envelope.subject_ref) 256) _ h1 in
      subst (Shaped f envelope (some context)) (gave_injective h2) (
        drafted context _ _ refl (record {
          origin = refl;
          review_status = refl;
          origin_reference = ap (λ p. some (str p)) e;
        }))

  observation_intent-Shaped :
      (envelope : MaterializationEnvelope) (context : MaterializationContext) (payload : Fields)
      (team proposal_id title : String) (intent : MaterializationIntent)
      → proposal_id ≡ f.strip envelope.proposal_id
      → observation_intent f envelope payload team proposal_id title ≡ gave intent
      → Shaped f envelope (some context) intent
  unfolding observation_intent
  observation_intent-Shaped envelope context payload team proposal_id title intent e h0 =
      let (_, h1) = throw_if-gave (not (is_false (get "is_official_metric" payload))) _ _ h0 in
      let (summary, _, h2) =
        bind-gave (require_text f (as_str (get "summary" payload)) 2000) _ h1 in
      let (model_name, _, h3) = bind-gave (require_text f envelope.model_name 160) _ h2 in
      let (model_version, _, h4) = bind-gave (require_text f envelope.model_version 160) _ h3 in
      let (_, h5) = throw_if-gave (not (model_name == "deepseek-v4-flash")) _ _ h4 in
      let (refs, _, h6) = bind-gave (trusted_evidence_refs f envelope.evidence_refs) _ h5 in
      subst (Shaped f envelope (some context)) (gave_injective h6) (
        drafted context _ _ refl (record {
          origin = refl;
          review_status = refl;
          origin_reference = ap (λ p. some (str p)) e;
        }))

  review_case_intent-Shaped :
      (envelope : MaterializationEnvelope) (context : MaterializationContext)
      (team proposal_id title : String) (intent : MaterializationIntent)
      → proposal_id ≡ f.strip envelope.proposal_id
      → review_case_intent f envelope context team proposal_id title ≡ gave intent
      → Shaped f envelope (some context) intent
  unfolding review_case_intent
  review_case_intent-Shaped envelope context team proposal_id title intent e h0 =
      let (reviewer, _, h1) = bind-gave (require_text f context.assigned_reviewer 256) _ h0 in
      let (subject_type, a, h2) =
        bind-gave (require_text f (some envelope.subject_type) 140) _ h1 in
      let (subject_ref, b, h3) = bind-gave (require_text f (some envelope.subject_ref) 256) _ h2 in
      let (_, h4) = throw_if-gave (envelope.subject_revision == 0) _ _ h3 in
      let (snapshot, controlled, h5) =
        bind-gave (or_throw context.subject_snapshot (queue validation_error)) _ h4 in
      let (bound, h6) =
        throw_if-gave
          (not (
            is_str (get "doctype" snapshot) subject_type
            && (is_str (get "name" snapshot) subject_ref
                && is_revision f (get "revision" snapshot) envelope.subject_revision)))
          _ _ h5 in
      let (digest, _, h7) =
        bind-gave (or_throw context.subject_payload_digest (queue validation_error)) _ h6 in
      let (digested, h8) =
        throw_if-gave (not (frappe_payload_digest f snapshot == digest)) _ _ h7 in
      let (refs, _, h9) = bind-gave (trusted_evidence_refs f envelope.evidence_refs) _ h8 in
      let (policy, _, h10) = bind-gave (require_text f envelope.policy_version 140) _ h9 in
      let (doctype, rest) = both _ _ (not-false _ bound) in
      let (name, revision) = both _ _ rest in
      subst (Shaped f envelope (some context)) (gave_injective h10) (
        reviewed context snapshot _
          (record {
            controlled = or_throw-gave _ _ controlled;
            doctype =
                subst (λ t. is_str (get "doctype" snapshot) t ≡ true)
                  (require_text-strip envelope.subject_type 140 a) doctype;
            name =
                subst (λ t. is_str (get "name" snapshot) t ≡ true)
                  (require_text-strip envelope.subject_ref 256 b) name;
            revision = revision;
            digest = ap (λ d. some (str d)) (sym (eq_of_== _ _ (not-false _ digested)));
          })
          (record {
            origin = refl;
            review_status = refl;
            origin_reference = ap (λ p. some (str p)) e;
          }))

  pub create_intent-Shaped :
      (envelope : MaterializationEnvelope) (context : MaterializationContext) (payload : Fields)
      (intent : MaterializationIntent)
      → create_intent f envelope context payload ≡ gave intent
      → Shaped f envelope (some context) intent
  unfolding create_intent
  create_intent-Shaped envelope context payload intent h0 =
      let (team, _, h1) = bind-gave (require_text f (some context.team) 140) _ h0 in
      let (proposal_id, named, h2) =
        bind-gave (require_text f (some envelope.proposal_id) 256) _ h1 in
      let (title, _, h3) = bind-gave (require_text f (as_str (get "title" payload)) 140) _ h2 in
      let e = require_text-strip envelope.proposal_id 256 named in
      choose (λ m. m ≡ gave intent → Shaped f envelope (some context) intent)
        (envelope.action_type == "internal.work_item.propose") _ _
        (work_item_intent-Shaped envelope context team proposal_id title intent e)
        (choose (λ m. m ≡ gave intent → Shaped f envelope (some context) intent)
          (envelope.action_type == "internal.ai_draft.propose") _ _
          (observation_intent-Shaped envelope context payload team proposal_id title intent e)
          (review_case_intent-Shaped envelope context team proposal_id title intent e))
        h3
