-- ===== src/Domain/Drafts.antt =====
-- Which saves of an AI draft apps/esan_gbos/esan_gbos/permissions.py lets through.
use esan_gbos.Prelude.{
  String, Bool, true, Option, none, some, ◌==◌, string_eq, opt_beq, ==_refl, ◌≡◌, refl, ap, ◌∙◌,
  ◌≢◌, subst, arith, Bool-cases, inl, inr, eq_of_==,
}
use esan_gbos.Domain.Workflow.{validate_ai_draft_transition}
use esan_gbos.Domain.Access.{Draft, protect_ai_draft_command}

-- The saves of a stored draft that are in order: it is no AI draft, or its review status stays, or
-- the save carries the flag of the command, keeps the business status and changes the review
-- status as the workflows accept.
pub data IsSave (before doc : Draft) (flagged : Bool) : Type 0 where
  reviewed : before.review_status ≢ some "AI Draft" → IsSave before doc flagged
  still : doc.review_status ≡ before.review_status → IsSave before doc flagged
  commanded :
      (origin after : String)
      → before.review_status ≡ some "AI Draft"
      → before.origin ≡ some origin
      → doc.review_status ≡ some after
      → flagged ≡ true
      → doc.business_status ≡ before.business_status
      → validate_ai_draft_transition origin "AI Draft" after ≡ some tt
      → IsSave before doc flagged

opt_beq-eq : (a b : Option String) → opt_beq a b ≡ true → a ≡ b
opt_beq-eq none none h = refl
opt_beq-eq none (some b) h = cc
opt_beq-eq (some a) none h = cc
opt_beq-eq (some a) (some b) h = ap some (eq_of_== a b h)

opt_beq_refl : (a b : Option String) → a ≡ b → opt_beq a b ≡ true
opt_beq_refl a b e = subst (λ c. opt_beq a c ≡ true) e (self a)
  where
    self : (a : Option String) → opt_beq a a ≡ true
    self none = refl
    self (some a) = ==_refl a

protect_ai_draft_command-IsSave :
    (before doc : Draft) (flagged : Bool)
    → protect_ai_draft_command (some before) doc flagged ≡ true
    → IsSave before doc flagged
unfolding protect_ai_draft_command validate_ai_draft_transition
protect_ai_draft_command-IsSave before doc flagged h =
    elim (Bool-cases (opt_beq before.review_status (some "AI Draft"))) [
      | inr other ↦
          reviewed λ e. let same = opt_beq_refl before.review_status (some "AI Draft") e in cc
      | inl was ↦ elim (Bool-cases (opt_beq doc.review_status before.review_status)) [
        | inl same ↦ still (opt_beq-eq _ _ same)
        | inr moved ↦
            let origin : opt_beq before.origin (some "AI") ≡ true = ground arith in
            let after : opt_beq doc.review_status (some "Pending") ≡ true = ground arith in
            let business : opt_beq doc.business_status before.business_status ≡ true =
              ground arith in
            commanded "AI" "Pending" (opt_beq-eq _ _ was) (opt_beq-eq _ _ origin)
              (opt_beq-eq _ _ after) (ground arith) (opt_beq-eq _ _ business) refl
      ]
    ]

IsSave-protect_ai_draft_command :
    (before doc : Draft) (flagged : Bool)
    → IsSave before doc flagged
    → protect_ai_draft_command (some before) doc flagged ≡ true
unfolding protect_ai_draft_command validate_ai_draft_transition
IsSave-protect_ai_draft_command before doc flagged (reviewed h) =
    elim (Bool-cases (opt_beq before.review_status (some "AI Draft"))) [
      | inl was ↦ absurd (h (opt_beq-eq _ _ was))
      | inr other ↦ ground arith
    ]
IsSave-protect_ai_draft_command before doc flagged (still e) =
    let same = opt_beq_refl _ _ e in ground arith
IsSave-protect_ai_draft_command before doc flagged
      (commanded origin after was from to flag business allowed) =
    let ai : origin == "AI" ≡ true = ground arith in
    let pending : after == "Pending" ≡ true = ground arith in
    let was' = opt_beq_refl _ _ was in
    let from' = opt_beq_refl _ _ (from ∙ ap some (eq_of_== origin "AI" ai)) in
    let to' = opt_beq_refl _ _ (to ∙ ap some (eq_of_== after "Pending" pending)) in
    let business' = opt_beq_refl _ _ business in ground arith

-- protect_ai_draft_command lets a save of a stored document through exactly where the document is
-- no AI draft, or its review status stays, or the save carries the flag of the command, keeps the
-- business status, and makes a change of the review status that validate_ai_draft_transition of
-- the workflows accepts.
pub protect_ai_draft_command-transition :
    (before doc : Draft) (flagged : Bool)
    → (protect_ai_draft_command (some before) doc flagged ≡ true → IsSave before doc flagged)
      × (IsSave before doc flagged → protect_ai_draft_command (some before) doc flagged ≡ true)
protect_ai_draft_command-transition before doc flagged = (
  protect_ai_draft_command-IsSave before doc flagged,
  IsSave-protect_ai_draft_command before doc flagged,
)
