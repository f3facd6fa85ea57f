-- ===== src/Tasks/Safety.antt =====
-- services/agent_runtime/proposals.py: what a proposal that from_execution accepts is like.
use esan_gbos.Prelude.{
  ℕ, true, false, some, ◌&&◌, ◌==◌, ◌≡◌, refl, subst, ap, ◌∙◌, arith, contains, string_eq, opt_beq,
  eq_of_==, is_unique, both,
}
use esan_gbos.Prelude.Int.{ℤ, pos, negsuc}
use esan_gbos.Prelude.Json.{Json, str, arr, obj, Items, Fields, get}
use esan_gbos.Tasks.Errors.{Error, validation_error, value_error, or_raise, Result, ok, err, ◌>>=◌}
use esan_gbos.Tasks.Models.{AgentTaskMetadata}
use esan_gbos.Tasks.Proposals.{Externals, AgentExecutionResult, ActionProposalRecord}
use esan_gbos.Tasks.Documents.{
  is_empty, non_negative, as_str, as_obj, as_arr, as_int, texts, fact_refs_of, bind-some,
  require-some, some_injective,
}
use esan_gbos.Tasks.Sources.{as_str-some, as_obj-some, as_arr-some, opt_beq-some, or_raise-ok}
use esan_gbos.Tasks.Readings.{ProposalParts, read_proposal}
use esan_gbos.Tasks.Drafts.{
  from_execution, check_proposal, require_aware, is_unsafe, allowed_action_types,
}

-- The document of a proposal names the site, the subject, the status, the action, the name and the
-- evidence that the record has, and its payload has the digest of the record.
pub record IsDocument (x : Externals) (p : ActionProposalRecord) (fs : Fields) : Type 0 where
  pub site : get "site_id" fs ≡ some (str p.site_id)
  pub subject : get "target_ref" fs ≡ some (str p.subject_ref)
  pub status : get "status" fs ≡ some (str p.status)
  pub action : get "action_type" fs ≡ some (str p.action_type)
  pub name : get "action_proposal_id" fs ≡ some (str p.proposal_id)
  pub digest : get "payload_digest" fs ≡ some (str p.payload_digest)
  pub payload :
      (fields : Fields) × (get "payload" fs ≡ some (obj fields))
      × (x.payload_digest (obj fields) ≡ p.payload_digest)
  pub evidence :
      (items : Items) × (get "evidence_refs" fs ≡ some (arr items))
      × (texts items ≡ some p.evidence_refs)
  pub facts :
      (items : Items) × (get "fact_version_refs" fs ≡ some (arr items))
      × (fact_refs_of items ≡ some p.fact_version_refs)
  pub revision : as_int (get "target_revision" fs) ≡ some (pos p.subject_revision)

-- What ActionProposalRecord promises of itself, and of the task that it was made for.
pub record IsSafe (x : Externals) (task : AgentTaskMetadata) (result : AgentExecutionResult)
    (p : ActionProposalRecord) : Type 0 where
  pub allowed : contains p.action_type allowed_action_types ≡ true
  pub draft : (p.status ≡ "proposed") × (p.origin ≡ "AI") × (p.review_status ≡ "AI Draft")
  pub bound :
      (p.site_id ≡ task.site_id)
      × (p.task_id ≡ task.task_id)
      × (p.task_attempt ≡ task.attempt)
      × (p.subject_ref ≡ task.subject_ref)
  pub evidence : (is_empty p.evidence_refs ≡ false) × (is_unique p.evidence_refs ≡ true)
  pub invoked : is_unique p.invocation_ids ≡ true
  pub digests : (x.is_digest p.payload_digest ≡ true) × (x.is_digest p.bundle_digest ≡ true)
  pub document :
      (p.document ≡ result.action_proposal)
      × (fs : Fields) × (p.document ≡ obj fs)
      × IsDocument x p fs
  pub clean : is_unsafe x p.document ≡ false

-- The checks of __post_init__ that passed.
check_proposal-lem :
    (x : Externals) (p : ActionProposalRecord)
    → check_proposal x p ≡ ok tt
    → (contains p.action_type allowed_action_types ≡ true)
      × (is_empty p.evidence_refs ≡ false)
      × (is_unique p.evidence_refs ≡ true)
      × (is_unique p.invocation_ids ≡ true)
      × (x.is_digest p.payload_digest ≡ true)
      × (x.is_digest p.bundle_digest ≡ true)
      × (is_unsafe x p.document ≡ false)
unfolding check_proposal
check_proposal-lem x p h = ground arith

-- What read_proposal took its parts from.
record IsRead (x : Externals) (task : AgentTaskMetadata) (value : Json) (parts : ProposalParts)
    : Type 0 where
  fields : Fields
  object : value ≡ obj fields
  site : get "site_id" fields ≡ some (str task.site_id)
  subject : get "target_ref" fields ≡ some (str task.subject_ref)
  status : get "status" fields ≡ some (str "proposed")
  action : get "action_type" fields ≡ some (str parts.action_type)
  name : get "action_proposal_id" fields ≡ some (str parts.proposal_id)
  digest : get "payload_digest" fields ≡ some (str parts.payload_digest)
  payload :
      (p : Fields) × (get "payload" fields ≡ some (obj p))
      × (x.payload_digest (obj p) ≡ parts.payload_digest)
  evidence :
      (items : Items) × (get "evidence_refs" fields ≡ some (arr items))
      × (texts items ≡ some parts.evidence_refs)
  facts :
      (items : Items) × (get "fact_version_refs" fields ≡ some (arr items))
      × (fact_refs_of items ≡ some parts.fact_version_refs)
  revision : as_int (get "target_revision" fields) ≡ some parts.target_revision

read_proposal-IsRead :
    (x : Externals) (task : AgentTaskMetadata) (value : Json) (parts : ProposalParts)
    → read_proposal x task value ≡ some parts
    → IsRead x task value parts
unfolding read_proposal
read_proposal-IsRead x task value parts h0 =
    let (fs, at, h1) = bind-some (as_obj (some value)) _ h0 in
    let (heads, h2) =
      require-some
        (opt_beq (as_str (get "site_id" fs)) (some task.site_id)
          && (opt_beq (as_str (get "target_ref" fs)) (some task.subject_ref)
              && opt_beq (as_str (get "status" fs)) (some "proposed")))
        _ h1 in
    let (site, rest) = both _ _ heads in
    let (target, status) = both _ _ rest in
    let (action, a, h3) = bind-some (as_str (get "action_type" fs)) _ h2 in
    let (name, n, h4) = bind-some (as_str (get "action_proposal_id" fs)) _ h3 in
    let (payload, p, h5) = bind-some (as_obj (get "payload" fs)) _ h4 in
    let (items, i, h6) = bind-some (as_arr (get "evidence_refs" fs)) _ h5 in
    let (refs, r, h7) = bind-some (texts items) _ h6 in
    let (facts, f, h8) = bind-some (as_arr (get "fact_version_refs" fs)) _ h7 in
    let (digest, d, h9) = bind-some (as_str (get "payload_digest" fs)) _ h8 in
    let (created, c, h10) = bind-some (as_str (get "created_at" fs)) _ h9 in
    let (revision, v, h11) = bind-some (as_int (get "target_revision" fs)) _ h10 in
    let (same, h12) = require-some (x.payload_digest (obj payload) == digest) _ h11 in
    let (versions, w, h13) = bind-some (fact_refs_of facts) _ h12 in
    subst (IsRead x task value) (some_injective h13) (record {
      fields = fs;
      object = some_injective (as_obj-some (some value) fs at);
      site = as_str-some _ _ (opt_beq-some _ _ site);
      subject = as_str-some _ _ (opt_beq-some _ _ target);
      status = as_str-some _ _ (opt_beq-some _ _ status);
      action = as_str-some _ _ a;
      name = as_str-some _ _ n;
      digest = as_str-some _ _ d;
      payload = (payload, as_obj-some _ _ p, eq_of_== _ _ same);
      evidence = (items, as_arr-some _ _ i, r);
      facts = (facts, as_arr-some _ _ f, w);
      revision = v;
    })

non_negative-some : (z : ℤ) (n : ℕ) → non_negative z ≡ some n → z ≡ pos n
non_negative-some (pos m) n h = ap pos (some_injective h)
non_negative-some (negsuc m) n h = cc

bind_rule :
    {A B : Type 0} (P : Result B → Type 0) (m : Result A) (f : A → Result B)
    → ((e : Error) → P (err e))
    → ((a : A) → m ≡ ok a → P (f a))
    → P (m >>= f)
bind_rule P (ok a) f bad good = good a refl
bind_rule P (err e) f bad good = bad e

module _ (x : Externals) (task : AgentTaskMetadata) (result : AgentExecutionResult) where
  abbrev Safe : Result ActionProposalRecord → Type 0
  Safe (ok p) = IsSafe x task result p
  Safe (err _) = Unit

  from_execution-Safe : Safe (from_execution x task result)
  unfolding from_execution
  from_execution-Safe =
      bind_rule Safe (or_raise (read_proposal x task result.action_proposal) validation_error) _
        (λ _. tt)
        λ parts read.
          bind_rule Safe (or_raise (x.from_isoformat parts.created_at_value) value_error) _
            (λ _. tt)
            λ created _.
              bind_rule Safe (or_raise (non_negative parts.target_revision) validation_error) _
                (λ _. tt)
                λ revision unsigned.
                  bind_rule Safe (require_aware created) _ (λ _. tt)
                    λ created_at _.
                      bind_rule Safe (check_proposal x _) _ (λ _. tt)
                        λ _ checks.
                          let (allowed, full, unique, invoked, payload, bundle, clean) =
                            check_proposal-lem x _ checks in
                          let source =
                            read_proposal-IsRead x task result.action_proposal parts
                              (or_raise-ok _ _ read) in
                          let counted = non_negative-some _ _ (or_raise-ok _ _ unsigned) in
                          record {
                            allowed = allowed;
                            draft = (refl, refl, refl);
                            bound = (refl, refl, refl, refl);
                            evidence = (full, unique);
                            invoked = invoked;
                            digests = (payload, bundle);
                            document = (
                              refl,
                              source.fields,
                              source.object,
                              record {
                                site = source.site;
                                subject = source.subject;
                                status = source.status;
                                action = source.action;
                                name = source.name;
                                digest = source.digest;
                                payload = source.payload;
                                evidence = source.evidence;
                                facts = source.facts;
                                revision = source.revision ∙ ap some counted;
                              },
                            );
                            clean = clean;
                          }

-- A proposal that from_execution returns has an allowed action type, is an AI draft that is only
-- proposed, and has evidence references without duplicates, distinct invocations and well-formed
-- digests. It has the task's site, name, attempt and subject, and keeps the document of the
-- execution, an object that names that very site and subject, the status, the action type, the
-- evidence and the facts of the record, and a payload with the record's digest; no key in the
-- document is forbidden and no text is forbidden or personal.
pub from_execution-IsSafe :
    (x : Externals) (task : AgentTaskMetadata) (result : AgentExecutionResult)
    (p : ActionProposalRecord)
    → from_execution x task result ≡ ok p
    → IsSafe x task result p
from_execution-IsSafe x task result p h =
    subst (Safe x task result) h (from_execution-Safe x task result)
