-- ===== src/Domain/Transitions.antt =====
-- The statuses that the workflows of apps/esan_gbos/esan_gbos/domain/state_machine.py can reach.
use esan_gbos.Prelude.{
  ℕ, String, Bool, true, false, not, ◌||◌, Option, none, some, List, [], ◌∷◌, if◌then◌else◌, ◌==◌,
  string_eq, contains, all, ltb, ◌≡◌, refl, sym, ap, subst, arith, eq_of_==, Bool-cases, inl, inr,
  ◌<◌, ◌≢◌,
}
use esan_gbos.Prelude.Dict.{Dict, lookup}
use esan_gbos.Prelude.Tables.{contains-all, lookup-all}
use esan_gbos.Domain.Workflow.{
  sample_transitions, demand_transitions, sourcing_transitions, work_transitions,
  review_transitions, transitions, initial_statuses, validate_initial_status, transitions_for,
  change_status, validate_transition, unless, ◌>>=◌,
}

-- The status is a status of the workflow.
abbrev pub has_status : String → String → Bool
has_status workflow status = elim (transitions_for workflow status) [ none ↦ false | some _ ↦ true ]

-- How far a status is from the start of its workflow, for the workflows that only go forward.
unfoldable pub rank : String → ℕ
rank status =
    if contains status ("Draft" ∷ "Pending" ∷ [])
    then 0
    else if contains status ("Designing" ∷ "Confirmed" ∷ "Invited" ∷ [])
    then 1
    else if contains status ("Sampling" ∷ "Sourcing" ∷ "Collecting" ∷ [])
    then 2
    else if contains status ("Sent" ∷ "Evaluating" ∷ [])
    then 3
    else if contains status ("Feedback" ∷ "Selected" ∷ [])
    then 4
    else 5

-- Statuses that a record passes through, from its creation on.
pub data Reachable (workflow : String) : String → Type 0 where
  created :
      (status : String)
      → validate_initial_status workflow status ≡ some tt
      → Reachable workflow status
  moved :
      (before after : String)
      → Reachable workflow before
      → validate_transition workflow before after ≡ some tt
      → Reachable workflow after

-- One or more changes of status.
pub data Moves (workflow : String) : String → String → Type 0 where
  once :
      (before after : String)
      → change_status workflow before after ≡ some tt
      → Moves workflow before after
  again :
      (before between after : String)
      → Moves workflow before between
      → change_status workflow between after ≡ some tt
      → Moves workflow before after

-- Tests over all rows of the table, which compute.
abbrev every_change : (String → String → String → Bool) → String → Dict String (List String) → Bool
every_change p workflow table = all (λ row. all (p workflow row.0) row.1) table

change_closed : String → String → String → Bool
change_closed workflow before after = has_status workflow after

closed : all (λ row. every_change change_closed row.0 row.1) transitions ≡ true
unfolding transitions sample_transitions demand_transitions sourcing_transitions work_transitions
    review_transitions transitions_for lookup change_closed
closed = refl

change_forward : String → String → String → Bool
change_forward workflow before after = workflow == "work" || ltb (rank before) (rank after)

forward : all (λ row. every_change change_forward row.0 row.1) transitions ≡ true
unfolding transitions sample_transitions demand_transitions sourcing_transitions work_transitions
    review_transitions change_forward rank
forward = refl

initial_known : all (λ row. has_status row.0 row.1) initial_statuses ≡ true
unfolding initial_statuses transitions sample_transitions demand_transitions sourcing_transitions
    work_transitions review_transitions transitions_for lookup
initial_known = refl

unless-true : (b : Bool) → unless (not b) ≡ some tt → b ≡ true
unless-true true h = refl
unless-true false h = cc

bind_some :
    {A B : Type 0} (o : Option A) (f : A → Option B) {b : B}
    → (o >>= f) ≡ some b
    → (a : A) × (o ≡ some a) × (f a ≡ some b)
bind_some (some a) f h = (a, refl, h)
bind_some none f h = cc

-- A change that is allowed is a row of the table.
change_status-row :
    (workflow before after : String)
    → change_status workflow before after ≡ some tt
    → (table : Dict String (List String)) × (allowed : List String) × (lookup workflow transitions
        ≡ some table)
      × (lookup before table ≡ some allowed)
      × (contains after allowed ≡ true)
unfolding change_status transitions_for
change_status-row workflow before after h =
    let (allowed, found, passed) =
      bind_some (transitions_for workflow before) (λ allowed. unless (not (contains after allowed)))
        h in
    let (table, at, row) = bind_some (lookup workflow transitions) (lookup before) found in
    (table, allowed, at, row, unless-true (contains after allowed) passed)

-- What holds of every row of the table holds of every change that the code allows.
change_rule :
    (p : String → String → String → Bool) (workflow before after : String)
    → all (λ row. every_change p row.0 row.1) transitions ≡ true
    → change_status workflow before after ≡ some tt
    → p workflow before after ≡ true
change_rule p workflow before after checked h =
    let (table, allowed, at, row, member) = change_status-row workflow before after h in
    let in_table = lookup-all (every_change p) workflow transitions at checked in
    let in_row = lookup-all (λ status ts. all (p workflow status) ts) before table row in_table in
    contains-all (p workflow before) after allowed member in_row

-- A record that starts in the initial status of its workflow and changes its status only as
-- validate_transition allows is always in a status of its workflow.
pub Reachable-has_status :
    (workflow status : String) → Reachable workflow status → has_status workflow status ≡ true
unfolding validate_initial_status validate_transition change_closed
Reachable-has_status workflow status (created _ h) =
    let (initial, at, same) =
      bind_some (lookup workflow initial_statuses) (λ initial. unless (not (status == initial)))
        h in
    let is_it = eq_of_== status initial (unless-true (status == initial) same) in
    subst (λ s. has_status workflow s ≡ true) (sym is_it)
      (lookup-all has_status workflow initial_statuses at initial_known)
Reachable-has_status workflow status (moved before _ r h) = elim (Bool-cases (before == status)) [
  | inl same ↦
      subst (λ s. has_status workflow s ≡ true) (eq_of_== before status same)
        (Reachable-has_status workflow before r)
  | inr other ↦ change_rule change_closed workflow before status closed (rw other at h)
]

or_true : (a b : Bool) → a || b ≡ true → a ≡ false → b ≡ true
or_true a b h k = ground arith

lt_of_ltb : (m n : ℕ) → ltb m n ≡ true → m < n
lt_of_ltb m n h = ground arith

change_status-forward :
    (workflow before after : String)
    → (workflow == "work") ≡ false
    → change_status workflow before after ≡ some tt
    → rank before < rank after
unfolding change_forward
change_status-forward workflow before after ne h = lt_of_ltb (rank before) (rank after) (
    or_true (workflow == "work") (ltb (rank before) (rank after))
      (change_rule change_forward workflow before after forward h) ne)

Moves-forward :
    (workflow before after : String)
    → (workflow == "work") ≡ false
    → Moves workflow before after
    → rank before < rank after
Moves-forward workflow before after ne (once _ _ h) =
    change_status-forward workflow before after ne h
Moves-forward workflow before after ne (again _ between _ m h) =
    let earlier = Moves-forward workflow before between ne m in
    let last = change_status-forward workflow between after ne h in omega arith

-- In every workflow but work, a record never comes back to a status that it has left.
pub Moves-fresh :
    (workflow before after : String)
    → (workflow == "work") ≡ false
    → Moves workflow before after
    → before ≢ after
Moves-fresh workflow before after ne m same =
    let ahead = Moves-forward workflow before after ne m in let level = ap rank same in omega arith
