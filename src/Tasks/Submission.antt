-- ===== src/Tasks/Submission.antt =====
-- services/agent_runtime/repository.py: enqueue under an idempotency key that was used before.
use esan_gbos.Prelude.{
  ℕ, Bool, true, false, not, some, ◌≡◌, ◌≢◌, refl, sym, ap, ◌∙◌, subst, pair_eq, string_eq, ◌==◌,
  eq_of_==, by_option, Bool-cases, inl, inr,
}
use esan_gbos.Prelude.Dict.{lookup, lookup-insert_self}
use esan_gbos.Tasks.Errors.{validation_error, idempotency_conflict, Result, ok, err}
use esan_gbos.Tasks.Models.{Datetime, AgentTaskMetadata, AgentTaskSubmission}
use esan_gbos.Tasks.Drafts.{require_aware}
use esan_gbos.Tasks.Repository.{Repository, after, pure, refuse}
use esan_gbos.Tasks.Lifecycle.{
  enqueue, enqueue_new, settle_submission, admit, lacks_parent, has, task_of,
}
use esan_gbos.Tasks.Effects.{lift_rule, refuse_rule}
use esan_gbos.Tasks.Fencing.{aware}

not-false : (b : Bool) → not b ≡ false → b ≡ true
not-false true h = refl
not-false false h = cc

-- Where the call answers with a task, the task is the one under the submission's key, and has its
-- digest.
abbrev Indexes : AgentTaskSubmission → Result AgentTaskMetadata × Repository → Type 0
Indexes sub (err _, t) = Unit
Indexes sub (ok m, t) =
    (lookup (sub.site_id, sub.idempotency_key) t.idempotency ≡ some m)
    × (m.payload_digest ≡ sub.payload_digest)

enqueue_new-Indexes :
    (s : Repository) (sub : AgentTaskSubmission) (now : ℕ) → Indexes sub (enqueue_new sub now s)
unfolding enqueue_new admit
enqueue_new-Indexes s sub now =
    refuse_rule (Indexes sub) s (lacks_parent sub s) validation_error _ (λ _. tt)
      λ _.
        refuse_rule (Indexes sub) s (has (lookup (sub.site_id, sub.task_id) s.tasks))
          validation_error _ (λ _. tt)
          λ _. (
            lookup-insert_self (sub.site_id, sub.idempotency_key) (task_of sub now) s.idempotency,
            refl,
          )

enqueue-Indexes :
    (s : Repository) (sub : AgentTaskSubmission) (at_time : Datetime)
    → Indexes sub (enqueue sub at_time s)
unfolding enqueue
enqueue-Indexes s sub at_time =
    lift_rule (Indexes sub) s (require_aware at_time) _ (λ _ _. tt)
      λ now _.
        by_option (λ o. Indexes sub (settle_submission o sub now s))
          (lookup (sub.site_id, sub.idempotency_key) s.idempotency)
          (λ _. enqueue_new-Indexes s sub now)
          (λ task known.
            refuse_rule (Indexes sub) s (not (task.payload_digest == sub.payload_digest))
              idempotency_conflict (pure task) (λ _. tt)
              (λ same. (known, eq_of_== task.payload_digest sub.payload_digest (not-false _ same))))

-- A known key is settled by the digest.
settled_again :
    (t : Repository) (again : AgentTaskSubmission) (now : ℕ) (m : AgentTaskMetadata)
    → lookup (again.site_id, again.idempotency_key) t.idempotency ≡ some m
    → (m.payload_digest == again.payload_digest) ≡ true
    → enqueue again (aware now) t ≡ (ok m, t)
unfolding enqueue
settled_again t again now m known same =
    ap (λ o. settle_submission o again now t) known
    ∙ ap (λ b. after (refuse (not b) idempotency_conflict t) (λ _. pure m)) same

refused_again :
    (t : Repository) (again : AgentTaskSubmission) (now : ℕ) (m : AgentTaskMetadata)
    → lookup (again.site_id, again.idempotency_key) t.idempotency ≡ some m
    → (m.payload_digest == again.payload_digest) ≡ false
    → enqueue again (aware now) t ≡ (err idempotency_conflict, t)
unfolding enqueue
refused_again t again now m known other =
    ap (λ o. settle_submission o again now t) known
    ∙ ap (λ b. after (refuse (not b) idempotency_conflict t) (λ _. pure m)) other

-- After an enqueue that answered with a task, a submission to the same site under the same
-- idempotency key gets that task again if its payload digest is the same, and IdempotencyConflict
-- if it is not; the repository stays as it was in both cases.
pub enqueue-enqueue :
    (s t : Repository) (sub again : AgentTaskSubmission) (at_time : Datetime) (now : ℕ)
    (m : AgentTaskMetadata)
    → enqueue sub at_time s ≡ (ok m, t)
    → again.site_id ≡ sub.site_id
    → again.idempotency_key ≡ sub.idempotency_key
    → ((again.payload_digest ≡ sub.payload_digest) → enqueue again (aware now) t ≡ (ok m, t))
      × ((again.payload_digest ≢ sub.payload_digest)
          → enqueue again (aware now) t ≡ (err idempotency_conflict, t))
enqueue-enqueue s t sub again at_time now m e same_site same_key =
    let (known, digest) = subst (Indexes sub) e (enqueue-Indexes s sub at_time) in
    let known' : lookup (again.site_id, again.idempotency_key) t.idempotency ≡ some m =
      rw (same_site, same_key) known in
    let iff = string_eq.equal_iff m.payload_digest again.payload_digest in
    (
      λ same. settled_again t again now m known' (iff.1 (digest ∙ sym same)),
      λ other. elim (Bool-cases (m.payload_digest == again.payload_digest)) [
        | inl same ↦ absurd (other (sym (iff.0 same) ∙ digest))
        | inr differs ↦ refused_again t again now m known' differs
      ],
    )
