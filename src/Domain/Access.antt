-- ===== src/Domain/Access.antt =====
-- apps/esan_gbos/esan_gbos/permissions.py: the permission hooks of the business records. Frappe's
-- roles, its database queries and the request-local scope of the materializer are the Context. The
-- scope's token is a private object, so a scope that is there always carries it.
use esan_gbos.Prelude.{
  String, Bool, true, false, not, ◌&&◌, ◌||◌, Option, none, some, List, [], ◌∷◌, if◌then◌else◌,
  ◌==◌, string_eq, contains, opt_beq,
}
use esan_gbos.Domain.Permissions.{
  internal_materializer_role, materialization_subject_doctypes, materialization_draft_doctypes,
  integration_doctypes, can_access_record, can_access_crm_record,
}

pub data Mode : Type 0 where
  resolve apply : Mode

-- _MaterializationPermissionScope
pub record Scope : Type 0 where
  pub actor : String
  pub mode : Mode

-- What the hooks read from Frappe: frappe.get_roles, the rows of the three DocTypes that they
-- look for, and the scope.
pub record Context : Type 0 where
  pub get_roles : String → List String
  pub team_member_exists : String → String → Bool
  pub review_case_exists : String → String → String → Bool
  pub work_item_exists : String → String → String → Bool
  pub scope : Option Scope

-- The attributes of a document, `none` where it has none.
pub record Document : Type 0 where
  pub doctype : String
  pub name : Option String
  pub team : Option String
  pub custom_esan_team : Option String
  pub assigned_reviewer : Option String

abbrev pub is_apply : Mode → Bool
is_apply apply = true
is_apply resolve = false

abbrev pub mode_in : Option Scope → String → Option Mode
mode_in none user = none
mode_in (some scope) user = if not (scope.actor == user) then none else some scope.mode

abbrev pub no_scope : Option Scope → Bool
no_scope none = true
no_scope (some _) = false

-- _internal_gbos_permission for a materializer.
abbrev pub permitted_in : Option Mode → String → String → Bool
permitted_in none doctype permission_type = false
permitted_in (some mode) doctype permission_type =
    if permission_type == "read"
    then contains doctype materialization_subject_doctypes || doctype == "GBOS Team"
    else if not (is_apply mode)
    then false
    else if permission_type == "create"
    then contains doctype materialization_draft_doctypes
    else if permission_type == "write"
    then contains doctype ("GBOS Work Item" ∷ "GBOS Review Case" ∷ [])
    else false

abbrev pub is_applying : Option Mode → Bool
is_applying none = false
is_applying (some mode) = is_apply mode

module _ (x : Context) where
  -- _is_internal_materializer
  abbrev pub is_internal_materializer : String → Bool
  is_internal_materializer user = contains internal_materializer_role (x.get_roles user)

  -- _internal_materialization_mode
  unfoldable pub internal_materialization_mode : String → Option Mode
  internal_materialization_mode user =
      if not (is_internal_materializer user) then none else mode_in x.scope user

  -- The entry of internal_materialization_permission_scope; `none` is PermissionError. Its exit
  -- takes the scope away again.
  unfoldable pub open_scope : Mode → String → Option Scope
  open_scope mode actor =
      if actor == "" || (actor == "Guest" || not (is_internal_materializer actor))
      then none
      else if not (no_scope x.scope)
      then none
      else some (record { actor = actor; mode = mode })

  -- _is_team_member: an empty name is no team.
  abbrev pub is_team_member : String → Option String → Bool
  is_team_member user none = false
  is_team_member user (some team) = not (team == "") && x.team_member_exists team user

  -- _is_assigned_review_subject
  abbrev pub is_assigned_review_subject : String → String → Option String → Bool
  is_assigned_review_subject user doctype none = false
  is_assigned_review_subject user doctype (some name) =
      not (name == "")
      && (x.review_case_exists user doctype name
          || (doctype == "GBOS Informal Observation" && x.work_item_exists user doctype name))

  -- has_gbos_permission for a user who is no materializer.
  abbrev pub business_permission : Document → String → String → Bool
  business_permission doc actor action =
      let roles = x.get_roles actor in
      if doc.doctype == "GBOS Team" && not (action == "read")
      then contains "GBOS Admin" roles
      else if contains "Integration Admin" roles && contains doc.doctype integration_doctypes
      then contains action ("read" ∷ "write" ∷ "create" ∷ [])
      else if contains doc.doctype integration_doctypes && not (action == "read")
      then contains "GBOS Admin" roles
      else if doc.doctype == "GBOS Review Case" && not (action == "read")
      then contains "GBOS Admin" roles
      else can_access_record roles doc.doctype action
          (is_team_member actor (if doc.doctype == "GBOS Team" then doc.name else doc.team))
          (doc.doctype == "GBOS Review Case" && opt_beq doc.assigned_reviewer (some actor))
          (is_assigned_review_subject actor doc.doctype doc.name)

  -- has_gbos_permission, with the user and the action that its first lines settle.
  unfoldable pub has_gbos_permission : Document → String → String → Bool
  has_gbos_permission doc actor action =
      if is_internal_materializer actor
      then permitted_in (internal_materialization_mode actor) doc.doctype action
      else business_permission doc actor action

  -- has_internal_materialization_permission
  unfoldable pub has_internal_materialization_permission : Document → String → String → Bool
  has_internal_materialization_permission doc actor action =
      if not (is_internal_materializer actor)
      then true
      else if not (doc.doctype == "Integration Request")
      then false
      else is_applying (internal_materialization_mode actor)
        && contains action ("read" ∷ "write" ∷ "create" ∷ [])

  -- has_crm_permission
  unfoldable pub has_crm_permission : Document → String → String → Bool
  has_crm_permission doc actor action =
      if is_internal_materializer actor
      then false
      else can_access_crm_record (x.get_roles actor) doc.doctype action
          (is_team_member actor doc.custom_esan_team)

-- The fields that protect_ai_draft_command compares.
pub record Draft : Type 0 where
  pub review_status : Option String
  pub origin : Option String
  pub business_status : Option String

abbrev pub may_save : Draft → Draft → Bool → Bool
may_save before doc flagged =
    if not (opt_beq before.review_status (some "AI Draft"))
    then true
    else if opt_beq doc.review_status before.review_status
    then true
    else if not flagged
    then false
    else opt_beq before.origin (some "AI")
      && (opt_beq doc.review_status (some "Pending")
          && opt_beq doc.business_status before.business_status)

-- protect_ai_draft_command, as a test: whether it lets a save through. `flagged` is the document's
-- flag gbos_ai_draft_command.
unfoldable pub protect_ai_draft_command : Option Draft → Draft → Bool → Bool
protect_ai_draft_command none doc flagged = true
protect_ai_draft_command (some before) doc flagged = may_save before doc flagged
