-- ===== src/Tasks/Reaping.antt =====
-- _reap_expired: afterwards no task of the site has an expired lease and a spent budget.
use esan_gbos.Prelude.{
  ℕ, Bool, Option, ◌≤◌, leb→le, eq_of_==, string_eq, String, true, false, none, some, List, [], ◌∷◌,
  ◌≡◌, ◌≢◌, ◌⊎◌, inl, inr, refl, sym, ap, ◌∙◌, subst, arith, Bool-cases, pair_eq, All, All-keep,
  All-map, Distinct, Distinct-keep, keep,
}
use esan_gbos.Prelude.Dict.{
  lookup, insert, values, All-values, Distinct-values, keep-values, lookup-insert_cases,
  lookup-insert_ne,
}
use esan_gbos.Tasks.Errors.{Result, ok, err}
use esan_gbos.Tasks.Models.{FailureClassification, ReasonCode, AgentTaskMetadata, TaskStatus}
use esan_gbos.Tasks.Repository.{
  Repository, TaskKey, Action, after, key, is_leased, has_expired, terminal_of, move_to_dead_letter,
}
use esan_gbos.Tasks.Claim.{is_exhausted, sort_by_task_id, bury_all, reap_expired}
use esan_gbos.Tasks.Records.{IsConsistent}
use esan_gbos.Tasks.Invariance.{History-IsConsistent}
use esan_gbos.Tasks.Effects.{move_to_dead_letter-buried}
use esan_gbos.Tasks.Steps.{History, here, join, is_dead}
use esan_gbos.Tasks.Sorting.{All-sort, sort-All, Distinct-sort}

-- Every listed task stands under its own key.
pub stored_values :
    (s : Repository) → IsConsistent s → All (λ m. lookup (key m) s.tasks ≡ some m) (values s.tasks)
stored_values s c =
    All-values _ s.tasks c.tables.dict
      λ k m h. subst (λ i. lookup i s.tasks ≡ some m) (sym (c.tables.keyed k m h)) h

-- A task as the repository holds it, under lease.
abbrev pub IsHeld : Repository → AgentTaskMetadata → Type 0
IsHeld s t = (lookup (key t) s.tasks ≡ some t) × (is_leased t.status ≡ true)

pub after-go :
    {A B : Type 0} (r : Result A × Repository) (f : A → Action B) {a : A}
    → r.0 ≡ ok a
    → after r f ≡ f a r.1
after-go (ok b, s) f e = ap (λ r. after (r, s) f) e
after-go (err _, s) f e = cc

-- A dead task that stands for one which was in the table and passed a test.
abbrev Replaces : (AgentTaskMetadata → Bool) → Repository → TaskKey → AgentTaskMetadata → Type 0
Replaces p s k m =
    (is_dead m.status ≡ true) × (t : AgentTaskMetadata) × (lookup k s.tasks ≡ some t) × (p t ≡ true)

-- What a run of `bury_all` over tasks that pass a test leaves: every task of the new state is dead
-- in place of such a task, or it was there before and is none of the buried ones.
abbrev Buries :
    (AgentTaskMetadata → Bool)
    → Repository
    → List AgentTaskMetadata
    → Result (Unit {0}) × Repository
    → Type 0
Buries p s ts r =
    (r.0 ≡ ok tt)
    × History s r.1
    × ((k : TaskKey) (m : AgentTaskMetadata)
        → lookup k r.1.tasks ≡ some m
        → Replaces p s k m ⊎ ((lookup k s.tasks ≡ some m) × All (λ t. key t ≢ k) ts))

module _ (now : ℕ) (s : Repository) (c : IsConsistent s) (t : AgentTaskMetadata)
    (held : IsHeld s t) where
  abbrev dead : AgentTaskMetadata
  dead = terminal_of t now FailureClassification.internal

  abbrev pub buried_one : Result AgentTaskMetadata × Repository
  buried_one =
      move_to_dead_letter t now FailureClassification.internal ReasonCode.lease_expired_max_attempts
        none s

  pub bury_one :
      (buried_one.0 ≡ ok dead)
      × History s buried_one.1
      × (buried_one.1.tasks ≡ insert (key t) dead s.tasks)
  bury_one =
      move_to_dead_letter-buried s c t held.0 held.1 now FailureClassification.internal
        ReasonCode.lease_expired_max_attempts none

  -- The others are held as before.
  pub still-IsHeld :
      (ts : List AgentTaskMetadata)
      → All (λ u. key t ≢ key u) ts
      → All (IsHeld s) ts
      → All (IsHeld buried_one.1) ts
  still-IsHeld [] ne h = tt
  still-IsHeld (u ∷ us) ne h = (
    (rw bury_one.2 (lookup-insert_ne (key t) (key u) dead s.tasks ne.0 ∙ h.0.0), h.0.1),
    still-IsHeld us ne.1 h.1,
  )

  -- What stands for another task once this one is buried stood for a task before.
  still-Replaces :
      (p : AgentTaskMetadata → Bool) (k : TaskKey) (m : AgentTaskMetadata)
      → p t ≡ true
      → Replaces p buried_one.1 k m
      → Replaces p s k m
  still-Replaces p k m passes (over, u, at, passed) =
      elim (lookup-insert_cases (key t) k dead s.tasks {w = u} (rw bury_one.2 at at)) [
        | inl (same, _) ↦ (over, t, subst (λ i. lookup i s.tasks ≡ some t) same held.0, passes)
        | inr (_, before) ↦ (over, u, before, passed)
      ]

  bury_next :
      (p : AgentTaskMetadata → Bool) (ts : List AgentTaskMetadata)
      → p t ≡ true
      → Buries p buried_one.1 ts (bury_all ts now buried_one.1)
      → Buries p s (t ∷ ts) (after buried_one (λ _. bury_all ts now))
  bury_next p ts passes rest =
      subst (Buries p s (t ∷ ts)) (sym (after-go buried_one (λ _. bury_all ts now) bury_one.0)) (
        rest.0,
        join bury_one.1 rest.1,
        λ k m h. elim (rest.2 k m h) [
          | inl over ↦ inl (still-Replaces p k m passes over)
          | inr (before, others) ↦
              elim (lookup-insert_cases (key t) k dead s.tasks {w = m} (rw bury_one.2 at before)) [
                | inl (same, e) ↦ inl (
                  subst (λ n. is_dead n.status ≡ true) e refl,
                  t,
                  subst (λ i. lookup i s.tasks ≡ some t) same held.0,
                  passes,
                )
                | inr (ne, before') ↦ inr (before', (ne, others))
              ]
        ],
      )

bury_all-Buries :
    (p : AgentTaskMetadata → Bool) (ts : List AgentTaskMetadata) (now : ℕ) (s : Repository)
    → IsConsistent s
    → Distinct key ts
    → All (IsHeld s) ts
    → All (λ t. p t ≡ true) ts
    → Buries p s ts (bury_all ts now s)
unfolding bury_all
bury_all-Buries p [] now s c d held passes = (refl, here, λ k m h. inr (h, tt))
bury_all-Buries p (t ∷ ts) now s c d held passes = bury_next now s c t held.0 p ts passes.0 (
    bury_all-Buries p ts now (buried_one now s c t held.0).1
      (History-IsConsistent (bury_one now s c t held.0).1 c) d.1
      (still-IsHeld now s c t held.0 ts d.0 held.1) passes.1)

-- The tasks that _reap_expired collects are held, and distinct.
pub exhausted-IsHeld :
    (s : Repository) (c : IsConsistent s) (site_id : String) (now : ℕ)
    → All (IsHeld s) (keep (is_exhausted site_id now) (values s.tasks))
exhausted-IsHeld s c site_id now =
    All-map _ (IsHeld s) (keep (is_exhausted site_id now) (values s.tasks))
      (λ m h. (h.0, ground (arith, h.1)))
      (All-keep (λ m. lookup (key m) s.tasks ≡ some m) (is_exhausted site_id now) (values s.tasks)
        (stored_values s c))

reap_expired-Buries :
    (s : Repository) (c : IsConsistent s) (site_id : String) (now : ℕ)
    → Buries
        (is_exhausted site_id now)
        s
        (sort_by_task_id (keep (is_exhausted site_id now) (values s.tasks)))
        (reap_expired site_id now s)
unfolding reap_expired
reap_expired-Buries s c site_id now =
    let exhausted = keep (is_exhausted site_id now) (values s.tasks) in
    bury_all-Buries (is_exhausted site_id now) (sort_by_task_id exhausted) now s c
      (Distinct-sort exhausted (
        Distinct-keep key (is_exhausted site_id now) (values s.tasks)
          (Distinct-values key s.tasks c.tables.dict c.tables.keyed)))
      (All-sort (IsHeld s) exhausted (exhausted-IsHeld s c site_id now))
      (All-sort (λ t. is_exhausted site_id now t ≡ true) exhausted
        (All-map _ (λ t. is_exhausted site_id now t ≡ true) exhausted (λ m h. h.1)
          (All-keep (λ m. lookup (key m) s.tasks ≡ some m) (is_exhausted site_id now)
            (values s.tasks) (stored_values s c))))

-- In a consistent repository _reap_expired returns, by writes that keep the repository consistent,
-- and afterwards no stored task of the site is exhausted: leased or running past its deadline with
-- no attempt left.
pub reap_expired-lem :
    (s : Repository) (c : IsConsistent s) (site_id : String) (now : ℕ)
    → let r = reap_expired site_id now s in
      (r.0 ≡ ok tt)
      × History s r.1
      × ((k : TaskKey) (m : AgentTaskMetadata)
          → lookup k r.1.tasks ≡ some m
          → is_exhausted site_id now m ≡ false)
reap_expired-lem s c site_id now =
    let exhausted = keep (is_exhausted site_id now) (values s.tasks) in
    let run = reap_expired-Buries s c site_id now in
    (
      run.0,
      run.1,
      λ k m h. elim (run.2 k m h) [
        | inl (over, _, _, _) ↦ ground (arith, over)
        | inr (before, others) ↦ elim (Bool-cases (is_exhausted site_id now m)) [
          | inl spent ↦ absurd (
              keep-values (λ t. key t ≢ k) (is_exhausted site_id now) k m s.tasks before spent
                (sort-All (λ t. key t ≢ k) exhausted others) (c.tables.keyed k m before))
          | inr fine ↦ fine
        ]
      ],
    )

-- A task of a site whose last attempt ended with its lease: it was leased or running, the deadline
-- has passed, and no attempt is left.
pub record IsSpent (site_id : String) (now : ℕ) (task : AgentTaskMetadata) : Type 0 where
  pub site : task.site_id ≡ site_id
  pub held : (task.status ≡ TaskStatus.leased) ⊎ (task.status ≡ TaskStatus.running)
  pub deadline : (t : ℕ) × (task.lease_expires_at ≡ some t) × (t ≤ now)
  pub attempts : task.max_attempts ≤ task.attempt

held_cases :
    (status : TaskStatus)
    → is_leased status ≡ true
    → (status ≡ TaskStatus.leased) ⊎ (status ≡ TaskStatus.running)
held_cases TaskStatus.leased h = inl refl
held_cases TaskStatus.running h = inr refl
held_cases TaskStatus.queued h = cc
held_cases TaskStatus.recheck h = cc
held_cases TaskStatus.succeeded h = cc
held_cases TaskStatus.failed h = cc
held_cases TaskStatus.dead_letter h = cc
held_cases TaskStatus.cancelled h = cc

deadline_of :
    (deadline : Option ℕ) (now : ℕ)
    → has_expired deadline now ≡ true
    → (t : ℕ) × (deadline ≡ some t) × (t ≤ now)
deadline_of none now h = cc
deadline_of (some t) now h = (t, refl, leb→le t now h)

is_exhausted-IsSpent :
    (site_id : String) (now : ℕ) (task : AgentTaskMetadata)
    → is_exhausted site_id now task ≡ true
    → IsSpent site_id now task
is_exhausted-IsSpent site_id now task h = record {
  site = eq_of_== task.site_id site_id (ground arith);
  held = held_cases task.status (ground arith);
  deadline = deadline_of task.lease_expires_at now (ground arith);
  attempts = ground arith;
}

-- A task that _reap_expired leaves in the table was there before the call, unchanged, or it is
-- dead and stands in the place of one of the site that was leased or running past its deadline
-- with no attempt left.
pub reap_expired-kept :
    (s : Repository) (c : IsConsistent s) (site_id : String) (now : ℕ) (k : TaskKey)
    (m : AgentTaskMetadata)
    → lookup k (reap_expired site_id now s).1.tasks ≡ some m
    → ((is_dead m.status ≡ true)
        × (t : AgentTaskMetadata) × (lookup k s.tasks ≡ some t)
        × IsSpent site_id now t)
      ⊎ (lookup k s.tasks ≡ some m)
reap_expired-kept s c site_id now k m h = elim ((reap_expired-Buries s c site_id now).2 k m h) [
  | inl (over, t, at, spent) ↦ inl (over, t, at, is_exhausted-IsSpent site_id now t spent)
  | inr (before, _) ↦ inr before
]
