-- ===== src/Domain/Workflow.antt =====
-- apps/esan_gbos/esan_gbos/domain/state_machine.py and revision.py. `none` is the one exception
-- of each, InvalidTransition and RevisionConflict.
use esan_gbos.Prelude.{
  ℕ, suc, String, Bool, not, ◌&&◌, Option, none, some, List, [], ◌∷◌, if◌then◌else◌, ◌==◌,
  string_eq, nat_eq, contains,
}
use esan_gbos.Prelude.Dict.{Dict, lookup}

-- _TRANSITIONS
unfoldable pub sample_transitions : Dict String (List String)
sample_transitions =
    ("Draft", "Designing" ∷ "Cancelled" ∷ [])
    ∷ ("Designing", "Sampling" ∷ "Cancelled" ∷ [])
    ∷ ("Sampling", "Sent" ∷ "Cancelled" ∷ [])
    ∷ ("Sent", "Feedback" ∷ "Cancelled" ∷ [])
    ∷ ("Feedback", "Approved" ∷ "Rejected" ∷ "Cancelled" ∷ [])
    ∷ ("Approved", [])
    ∷ ("Rejected", [])
    ∷ ("Cancelled", [])
    ∷ []

unfoldable pub demand_transitions : Dict String (List String)
demand_transitions =
    ("Draft", "Confirmed" ∷ "Cancelled" ∷ [])
    ∷ ("Confirmed", "Sourcing" ∷ "Cancelled" ∷ [])
    ∷ ("Sourcing", "Fulfilled" ∷ "Cancelled" ∷ [])
    ∷ ("Fulfilled", [])
    ∷ ("Cancelled", [])
    ∷ []

unfoldable pub sourcing_transitions : Dict String (List String)
sourcing_transitions =
    ("Draft", "Invited" ∷ "Cancelled" ∷ [])
    ∷ ("Invited", "Collecting" ∷ "Cancelled" ∷ [])
    ∷ ("Collecting", "Evaluating" ∷ "Cancelled" ∷ [])
    ∷ ("Evaluating", "Selected" ∷ "Closed" ∷ "Cancelled" ∷ [])
    ∷ ("Selected", "Closed" ∷ [])
    ∷ ("Closed", [])
    ∷ ("Cancelled", [])
    ∷ []

unfoldable pub work_transitions : Dict String (List String)
work_transitions =
    ("Open", "In Progress" ∷ "Blocked" ∷ "Cancelled" ∷ [])
    ∷ ("In Progress", "Blocked" ∷ "Done" ∷ "Cancelled" ∷ [])
    ∷ ("Blocked", "In Progress" ∷ "Cancelled" ∷ [])
    ∷ ("Done", [])
    ∷ ("Cancelled", [])
    ∷ []

unfoldable pub review_transitions : Dict String (List String)
review_transitions =
    ("Pending", "Approved" ∷ "Rejected" ∷ "Superseded" ∷ [])
    ∷ ("Approved", [])
    ∷ ("Rejected", [])
    ∷ ("Superseded", [])
    ∷ []

unfoldable pub transitions : Dict String (Dict String (List String))
transitions =
    ("sample", sample_transitions)
    ∷ ("demand", demand_transitions)
    ∷ ("sourcing", sourcing_transitions)
    ∷ ("work", work_transitions)
    ∷ ("review", review_transitions)
    ∷ []

-- _INITIAL_STATUSES
unfoldable pub initial_statuses : Dict String String
initial_statuses =
    ("sample", "Draft")
    ∷ ("demand", "Draft")
    ∷ ("sourcing", "Draft")
    ∷ ("work", "Open")
    ∷ ("review", "Pending")
    ∷ []

infixl 5 ◌>>=◌
abbrev pub ◌>>=◌ : {A B : Type 0} → Option A → (A → Option B) → Option B
none >>= f = none
some a >>= f = f a

abbrev pub unless : Bool → Option (Unit {0})
unless b = if b then none else some tt

unfoldable pub validate_initial_status : String → String → Option (Unit {0})
validate_initial_status workflow status = do
  initial ← lookup workflow initial_statuses
  unless (not (status == initial))

unfoldable pub transitions_for : String → String → Option (List String)
transitions_for workflow status = do table ← lookup workflow transitions; lookup status table

-- The end of validate_transition, where the status changes.
unfoldable pub change_status : String → String → String → Option (Unit {0})
change_status workflow before after = do
  allowed ← transitions_for workflow before
  unless (not (contains after allowed))

unfoldable pub validate_transition : String → String → String → Option (Unit {0})
validate_transition workflow before after =
    if before == after then some tt else change_status workflow before after

unfoldable pub validate_ai_draft_transition : String → String → String → Option (Unit {0})
validate_ai_draft_transition origin before after =
    unless (not (origin == "AI" && (before == "AI Draft" && after == "Pending")))

-- revision.py
unfoldable pub next_revision : ℕ → ℕ → Option ℕ
next_revision expected current = if not (expected == current) then none else some (suc current)
