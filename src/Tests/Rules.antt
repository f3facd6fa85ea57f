-- ===== src/Tests/Rules.antt =====
-- The rules of apps/esan_gbos/esan_gbos/domain and the hooks of permissions.py on concrete users,
-- records and commands.
use esan_gbos.Prelude.{
  ℕ, String, true, false, ◌||◌, Option, none, some, [], ◌∷◌, ◌≡◌, ◌≢◌, refl, contains, string_eq,
  any, ◌==◌, if◌then◌else◌, ◌+◌,
}
use esan_gbos.Prelude.Dict.{lookup, insert}
use esan_gbos.Prelude.Json.{Json, null}
use esan_gbos.Domain.Workflow.{
  transitions, sample_transitions, initial_statuses, validate_initial_status, transitions_for,
  change_status, validate_transition,
}
use esan_gbos.Domain.Transitions.{
  created, moved, once, again, has_status, Reachable-has_status, Moves-fresh,
}
use esan_gbos.Domain.Commands.{returned, idempotency_conflict, execute_once}
use esan_gbos.Domain.Replays.{execute_once-execute_once}
use esan_gbos.Domain.Permissions.{
  business_doctypes, integration_doctypes, all_parent_doctypes, sales_doctypes, team_write,
  can_access_record, role_has_doctype_permission, internal_materializer_role,
  materialization_draft_doctypes,
}
use esan_gbos.Domain.Roles.{can_access_record-role, outsider-global}
use esan_gbos.Domain.Access.{
  Context, Document, Scope, apply, is_apply, internal_materialization_mode, has_gbos_permission,
  Draft, protect_ai_draft_command,
}
use esan_gbos.Domain.Confinement.{materializer-confined, has_gbos_permission-role}
use esan_gbos.Domain.Drafts.{IsSave, protect_ai_draft_command-transition}

Reachable-has_status_example : has_status "sample" "Designing" ≡ true
unfolding validate_initial_status validate_transition change_status transitions_for transitions
    sample_transitions initial_statuses lookup
Reachable-has_status_example =
    Reachable-has_status "sample" "Designing"
      (moved "Draft" "Designing" (created "Draft" refl) refl)

abbrev from_status : String
from_status = "Draft"

abbrev to_status : String
to_status = "Sampling"

Moves-fresh_example : from_status ≢ to_status
unfolding change_status transitions_for transitions sample_transitions lookup
Moves-fresh_example =
    Moves-fresh "sample" "Draft" "Sampling" refl
      (again "Draft" "Designing" "Sampling" (once "Draft" "Designing" refl) refl)

abbrev hash : String → String → Json → String
hash command actor payload = actor

abbrev count : ℕ → Option ℕ × ℕ
count n = (some n, 1 + n)

execute_once-execute_once_example :
    execute_once hash "u" "create" "K" null count
      (insert "K" (record { payload_hash = "u"; result = 7 }) [])
      9
    ≡ (if hash "create" "u" null == hash "create" "u" null
        then (returned 7, insert "K" (record { payload_hash = "u"; result = 7 }) [], 9)
        else (idempotency_conflict, insert "K" (record { payload_hash = "u"; result = 7 }) [], 9))
unfolding execute_once lookup insert
execute_once-execute_once_example =
    execute_once-execute_once hash "u" "create" "K" null count []
      (insert "K" (record { payload_hash = "u"; result = 7 }) []) 7 8 7 "u" "create" null count 9
      refl

can_access_record-role_example :
    any (λ role. role_has_doctype_permission role "GBOS Work Item" "write") ("Sales User" ∷ [])
    ≡ true
unfolding can_access_record all_parent_doctypes business_doctypes integration_doctypes team_write
    sales_doctypes
can_access_record-role_example =
    can_access_record-role ("Sales User" ∷ []) "GBOS Work Item" "write" true false false refl refl

outsider-global_example :
    contains {A = String} "GBOS Admin" ("CEO" ∷ [])
      || (contains {A = String} "CEO" ("CEO" ∷ [])
          || contains {A = String} "Integration Admin" ("CEO" ∷ []))
    ≡ true
unfolding can_access_record all_parent_doctypes business_doctypes integration_doctypes
outsider-global_example = outsider-global ("CEO" ∷ []) "GBOS Work Item" "read" refl

abbrev context : Context
context = record {
  get_roles = λ user. internal_materializer_role ∷ [];
  team_member_exists = λ team user. false;
  review_case_exists = λ user doctype name. false;
  work_item_exists = λ user doctype name. false;
  scope = some (record { actor = "m"; mode = apply });
}

abbrev work_item : Document
work_item = record {
  doctype = "GBOS Work Item";
  name = some "W";
  team = none;
  custom_esan_team = none;
  assigned_reviewer = none;
}

materializer-confined_example :
    (role_has_doctype_permission internal_materializer_role "GBOS Work Item" "create" ≡ true)
    × (scope : Scope) × (context.scope ≡ some scope)
    × (scope.actor ≡ "m")
    × (is_apply scope.mode || ◌==◌ {K = String} "create" "read" ≡ true)
unfolding has_gbos_permission internal_materialization_mode materialization_draft_doctypes
materializer-confined_example = materializer-confined context work_item "m" "create" refl refl

has_gbos_permission-role_example :
    any
      (λ role. role_has_doctype_permission role "GBOS Work Item" "create")
      (internal_materializer_role ∷ [])
    ≡ true
unfolding has_gbos_permission internal_materialization_mode materialization_draft_doctypes
has_gbos_permission-role_example = has_gbos_permission-role context work_item "m" "create" refl refl

abbrev draft : String → Draft
draft status = record {
  review_status = some status;
  origin = some "AI";
  business_status = some "Open";
}

protect_ai_draft_command-transition_example :
    (protect_ai_draft_command (some (draft "AI Draft")) (draft "Pending") true ≡ true
      → IsSave (draft "AI Draft") (draft "Pending") true)
    × (IsSave (draft "AI Draft") (draft "Pending") true
        → protect_ai_draft_command (some (draft "AI Draft")) (draft "Pending") true ≡ true)
protect_ai_draft_command-transition_example =
    protect_ai_draft_command-transition (draft "AI Draft") (draft "Pending") true
