-- ===== src/Tasks/Persistence.antt =====
-- What becomes of a stored task of services/agent_runtime/repository.py in a run of calls.
use esan_gbos.Prelude.{
  some, List, ◌≡◌, refl, sym, ap, ◌∙◌, subst, arith, All, Bool-cases, pair_eq, false, true, Bool,
  ◌≤◌, ◌==◌, inl, inr, if◌then◌else◌, eq_of_==,
}
use esan_gbos.Prelude.Dict.{lookup, insert, lookup-insert, lookup-insert_ne}
use esan_gbos.Tasks.Models.{AgentTaskMetadata}
use esan_gbos.Tasks.Proposals.{Externals}
use esan_gbos.Tasks.Payload.{Patterns}
use esan_gbos.Tasks.Repository.{Repository, TaskKey, key, is_leased}
use esan_gbos.Tasks.Lifecycle.{admit, task_of}
use esan_gbos.Tasks.Run.{Call, run}
use esan_gbos.Tasks.Runs.{IsCall, run-History}
use esan_gbos.Tasks.Steps.{
  Change, Step, History, aside, admitted, changed, buried, noted, here, next, is_open, Change-key,
  Change-open, lease, begin, renew, finish, retry,
}
use esan_gbos.Tasks.Records.{IsConsistent}

-- `n` is what became of `m`: the same task with the same limits, no fewer attempts, and untouched
-- once it has succeeded or is dead.
pub record Follows (m n : AgentTaskMetadata) : Type 0 where
  pub same_key : key n ≡ key m
  pub same_idempotency_key : n.idempotency_key ≡ m.idempotency_key
  pub same_digest : n.payload_digest ≡ m.payload_digest
  pub same_budget : n.max_attempts ≡ m.max_attempts
  pub more_attempts : m.attempt ≤ n.attempt
  pub settled : is_open m.status ≡ false → n ≡ m

Follows-refl : (m : AgentTaskMetadata) → Follows m m
Follows-refl m = record {
  same_key = refl;
  same_idempotency_key = refl;
  same_digest = refl;
  same_budget = refl;
  more_attempts = omega arith;
  settled = λ _. refl;
}

Follows-trans : {l m n : AgentTaskMetadata} → Follows l m → Follows m n → Follows l n
Follows-trans f g = record {
  same_key = g.same_key ∙ f.same_key;
  same_idempotency_key = g.same_idempotency_key ∙ f.same_idempotency_key;
  same_digest = g.same_digest ∙ f.same_digest;
  same_budget = g.same_budget ∙ f.same_budget;
  more_attempts = let a = f.more_attempts in let b = g.more_attempts in omega arith;
  settled = λ h. let e = f.settled h in g.settled (ap (λ t. is_open t.status) e ∙ h) ∙ e;
}

absurd_open : {b : Bool} {A : Type 0} → b ≡ true → b ≡ false → A
absurd_open p q = cc

Change-Follows : {old new : AgentTaskMetadata} → Change old new → Follows old new
Change-Follows {old} {new} ch = record {
  same_key = Change-key ch;
  same_idempotency_key = same_idempotency ch;
  same_digest = same_digest_of ch;
  same_budget = same_budget_of ch;
  more_attempts = attempts_of ch;
  settled = λ h. absurd_open (Change-open ch) h;
}
  where
    same_idempotency : Change old new → new.idempotency_key ≡ old.idempotency_key
    same_idempotency (lease _ _ _ _ _ _ _ e) = cc
    same_idempotency (begin _ _ e) = cc
    same_idempotency (renew _ _ _ e) = cc
    same_idempotency (finish _ _ _ e) = cc
    same_idempotency (retry _ _ _ _ _ e) = cc

    same_digest_of : Change old new → new.payload_digest ≡ old.payload_digest
    same_digest_of (lease _ _ _ _ _ _ _ e) = cc
    same_digest_of (begin _ _ e) = cc
    same_digest_of (renew _ _ _ e) = cc
    same_digest_of (finish _ _ _ e) = cc
    same_digest_of (retry _ _ _ _ _ e) = cc

    same_budget_of : Change old new → new.max_attempts ≡ old.max_attempts
    same_budget_of (lease _ _ _ _ _ _ _ e) = cc
    same_budget_of (begin _ _ e) = cc
    same_budget_of (renew _ _ _ e) = cc
    same_budget_of (finish _ _ _ e) = cc
    same_budget_of (retry _ _ _ _ _ e) = cc

    attempts_of : Change old new → old.attempt ≤ new.attempt
    attempts_of (lease _ _ _ _ _ _ _ e) = rw e (omega arith)
    attempts_of (begin _ _ e) = rw e (omega arith)
    attempts_of (renew _ _ _ e) = rw e (omega arith)
    attempts_of (finish _ _ _ e) = rw e (omega arith)
    attempts_of (retry _ _ _ _ _ e) = rw e (omega arith)

terminal_of-Follows :
    (old new : AgentTaskMetadata)
    → (h : is_leased old.status ≡ true)
    → (key new ≡ key old)
      × (new.idempotency_key ≡ old.idempotency_key)
      × (new.payload_digest ≡ old.payload_digest)
      × (new.max_attempts ≡ old.max_attempts)
      × (new.attempt ≡ old.attempt)
    → Follows old new
terminal_of-Follows old new h (a, b, d, e, f) = record {
  same_key = a;
  same_idempotency_key = b;
  same_digest = d;
  same_budget = e;
  more_attempts = omega arith;
  settled = λ shut. absurd_open {b = is_open old.status} (ground arith) shut;
}

-- The task that stands at `k` after a write.
abbrev pub Kept : Repository → TaskKey → AgentTaskMetadata → Type 0
Kept t k m = (n : AgentTaskMetadata) × (lookup k t.tasks ≡ some n) × Follows m n

-- A task overwritten under its own key stays there in its new form; the others stay as they are.
overwritten :
    (s t : Repository) (old new : AgentTaskMetadata) (k : TaskKey) (m : AgentTaskMetadata)
    → lookup (key old) s.tasks ≡ some old
    → key new ≡ key old
    → Follows old new
    → t.tasks ≡ insert (key new) new s.tasks
    → lookup k s.tasks ≡ some m
    → Kept t k m
overwritten s t old new k m at same f tasks found =
    let now_found = ap (lookup k) tasks ∙ lookup-insert (key new) k new s.tasks in
    elim (Bool-cases (key new == k)) [
      | inl e ↦ (
        new,
        now_found ∙ ap (λ b. if b then some new else lookup k s.tasks) e,
        is_it (eq_of_== (key new) k e),
      )
      | inr e ↦ (
        m,
        now_found ∙ ap (λ b. if b then some new else lookup k s.tasks) e ∙ found,
        Follows-refl m,
      )
    ]
  where
    is_it : key new ≡ k → Follows m new
    is_it e =
        let same_task : old ≡ m = cc (at, found, ap (λ i. lookup i s.tasks) (sym same ∙ e)) in
        subst (λ i. Follows i new) same_task f

Step-Kept :
    {s t : Repository} (st : Step s t) (k : TaskKey) (m : AgentTaskMetadata)
    → lookup k s.tasks ≡ some m
    → Kept t k m
unfolding admit
Step-Kept {s} {t} (aside e _ _ _ _) k m found = (m, ap (lookup k) e ∙ found, Follows-refl m)
Step-Kept {s} {t} (admitted sub now room fi fresh e) k m found = (
  m,
  rw e (
      lookup-insert_ne (sub.site_id, sub.task_id) k (task_of sub now) s.tasks
        (λ same. cc (fresh, found, ap (λ i. lookup i s.tasks) same))
      ∙ found),
  Follows-refl m,
)
Step-Kept {s} {t} (changed old new at ch tasks _ _ _ _) k m found =
    overwritten s t old new k m at (Change-key ch) (Change-Follows ch) tasks found
Step-Kept {s} {t} (buried old new now classification _ at h e tasks _ _ _ _) k m found =
    overwritten s t old new k m at (cc) (terminal_of-Follows old new h (cc, cc, cc, cc, cc)) tasks
      found
Step-Kept {s} {t} (noted _ _ _ _ _ _ e _ _ _ _) k m found =
    (m, ap (lookup k) e ∙ found, Follows-refl m)

pub History-Kept :
    {s t : Repository} (h : History s t) (k : TaskKey) (m : AgentTaskMetadata)
    → lookup k s.tasks ≡ some m
    → Kept t k m
History-Kept here k m found = (m, found, Follows-refl m)
History-Kept (next h st) k m found =
    let (n, at, f) = History-Kept h k m found in
    let (l, at', g) = Step-Kept st k n at in (l, at', Follows-trans f g)

module _ (x : Externals) (y : Patterns) where
  -- A task that is stored in a consistent repository is still stored under its key after every
  -- sequence of calls whose submissions pass their checks, with the idempotency key, the payload
  -- digest and the attempt budget that it had and at least as many attempts; and where it had
  -- succeeded or was dead, it is unchanged.
  pub run-Follows :
      (calls : List Call) (s : Repository) (k : TaskKey) (m : AgentTaskMetadata)
      → IsConsistent s
      → All IsCall calls
      → lookup k s.tasks ≡ some m
      → (n : AgentTaskMetadata) × (lookup k (run x y calls s).1.tasks ≡ some n) × Follows m n
  run-Follows calls s k m c h found = History-Kept (run-History x y calls s c h) k m found
