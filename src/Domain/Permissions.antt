-- ===== src/Domain/Permissions.antt =====
-- apps/esan_gbos/esan_gbos/domain/permissions.py (roles, DocTypes and record access) and
-- access_policy.py. A set of roles is a list; PermissionScopeError is `none`.
use esan_gbos.Prelude.{
  String, Bool, false, not, ◌&&◌, ◌||◌, List, [], ◌∷◌, ◌++◌, if◌then◌else◌, ◌==◌, string_eq,
  contains, any,
}

unfoldable pub business_doctypes : List String
business_doctypes =
    "GBOS Party Profile" ∷ "GBOS Product Brief" ∷ "GBOS Sample Project" ∷ "GBOS Sample Iteration"
    ∷ "GBOS Sample Shipment" ∷ "GBOS Sample Feedback" ∷ "GBOS Demand Signal" ∷ "GBOS Sourcing Event"
    ∷ "GBOS Work Item" ∷ "GBOS Review Case" ∷ "GBOS Informal Observation" ∷ []

unfoldable pub integration_doctypes : List String
integration_doctypes = "GBOS External Identity" ∷ "GBOS External Crosswalk" ∷ []

unfoldable pub all_parent_doctypes : List String
unfolding business_doctypes integration_doctypes
all_parent_doctypes = business_doctypes ++ integration_doctypes ++ "GBOS Team" ∷ []

abbrev pub internal_materializer_role : String
internal_materializer_role = "Agent TrustedMaterializer"

unfoldable pub materialization_subject_doctypes : List String
materialization_subject_doctypes =
    "GBOS Demand Signal" ∷ "GBOS Party Profile" ∷ "GBOS Product Brief" ∷ "GBOS Sample Feedback"
    ∷ "GBOS Sample Iteration" ∷ "GBOS Sample Project" ∷ "GBOS Sample Shipment"
    ∷ "GBOS Sourcing Event" ∷ "GBOS Work Item" ∷ []

unfoldable pub materialization_draft_doctypes : List String
materialization_draft_doctypes =
    "GBOS Work Item" ∷ "GBOS Review Case" ∷ "GBOS Informal Observation" ∷ []

unfoldable pub sales_doctypes : List String
sales_doctypes =
    "GBOS Party Profile" ∷ "GBOS Product Brief" ∷ "GBOS Sample Project" ∷ "GBOS Sample Iteration"
    ∷ "GBOS Sample Shipment" ∷ "GBOS Sample Feedback" ∷ "GBOS Demand Signal" ∷ "GBOS Work Item" ∷ []

unfoldable pub product_doctypes : List String
product_doctypes =
    "GBOS Party Profile" ∷ "GBOS Product Brief" ∷ "GBOS Sample Project" ∷ "GBOS Sample Iteration"
    ∷ "GBOS Sample Shipment" ∷ "GBOS Sample Feedback" ∷ "GBOS Demand Signal" ∷ "GBOS Work Item" ∷ []

unfoldable pub purchase_read_doctypes : List String
purchase_read_doctypes = "GBOS Demand Signal" ∷ "GBOS Sourcing Event" ∷ "GBOS Work Item" ∷ []

unfoldable pub purchase_write_doctypes : List String
purchase_write_doctypes = "GBOS Sourcing Event" ∷ "GBOS Work Item" ∷ []

abbrev pub shared_doctypes : List String
shared_doctypes = "GBOS Review Case" ∷ "GBOS Team" ∷ []

-- _TEAM_READ.get(role, frozenset())
unfoldable pub team_read : String → List String
unfolding sales_doctypes product_doctypes purchase_read_doctypes
team_read role =
    if contains role ("Sales Manager" ∷ "Sales User" ∷ [])
    then sales_doctypes ++ shared_doctypes
    else if contains role ("Purchase Manager" ∷ "Buyer" ∷ [])
    then purchase_read_doctypes ++ shared_doctypes
    else if role == "Product/R&D"
    then product_doctypes ++ shared_doctypes
    else []

-- _TEAM_WRITE.get(role, frozenset())
unfoldable pub team_write : String → List String
unfolding sales_doctypes product_doctypes purchase_write_doctypes
team_write role =
    if contains role ("Sales Manager" ∷ "Sales User" ∷ [])
    then sales_doctypes
    else if contains role ("Purchase Manager" ∷ "Buyer" ∷ [])
    then purchase_write_doctypes
    else if role == "Product/R&D"
    then product_doctypes
    else []

unfoldable pub crm_doctypes : List String
crm_doctypes = "CRM Organization" ∷ "Contact" ∷ "CRM Lead" ∷ "CRM Deal" ∷ []

-- _CRM_TEAM_READ and _CRM_TEAM_WRITE
unfoldable pub crm_team : List String
crm_team = "Sales Manager" ∷ "Sales User" ∷ []

unfoldable pub product_crm_read : List String
product_crm_read = "CRM Organization" ∷ "CRM Deal" ∷ []

-- role_has_doctype_permission for INTERNAL_MATERIALIZER_ROLE.
abbrev pub materializer_has_permission : String → String → Bool
materializer_has_permission doctype permission_type =
    if permission_type == "read"
    then contains doctype materialization_subject_doctypes || doctype == "GBOS Team"
    else if permission_type == "create"
    then contains doctype materialization_draft_doctypes
    else if permission_type == "write"
    then contains doctype ("GBOS Work Item" ∷ "GBOS Review Case" ∷ [])
    else false

-- role_has_doctype_permission for the roles that its last lines name.
abbrev pub team_role_has_permission : String → String → String → Bool
team_role_has_permission role doctype permission_type =
    if permission_type == "read"
    then contains doctype (team_read role)
    else if contains permission_type ("write" ∷ "create" ∷ [])
    then contains doctype (team_write role)
    else false

unfoldable pub role_has_doctype_permission : String → String → String → Bool
role_has_doctype_permission role doctype permission_type =
    if not (contains doctype all_parent_doctypes)
    then false
    else if role == internal_materializer_role
    then materializer_has_permission doctype permission_type
    else if role == "GBOS Admin"
    then contains permission_type ("read" ∷ "write" ∷ "create" ∷ "delete" ∷ [])
    else if role == "CEO"
    then permission_type == "read" && (contains doctype business_doctypes || doctype == "GBOS Team")
    else if role == "Integration Admin"
    then contains permission_type ("read" ∷ "write" ∷ "create" ∷ [])
      && contains doctype integration_doctypes
    else if role == "Reviewer"
    then permission_type == "read" && contains doctype business_doctypes
    else team_role_has_permission role doctype permission_type

-- can_access_record where the permission is to read.
abbrev pub can_read_record : List String → String → Bool → Bool → Bool → Bool
can_read_record roles doctype is_team_member is_assigned_reviewer is_assigned_review_subject =
    contains "GBOS Admin" roles
    || ((contains "CEO" roles && (contains doctype business_doctypes || doctype == "GBOS Team"))
        || ((contains "Integration Admin" roles && contains doctype integration_doctypes)
            || ((contains "Reviewer" roles
                  && ((doctype == "GBOS Review Case" && is_assigned_reviewer)
                      || (contains doctype business_doctypes && is_assigned_review_subject)))
                || (is_team_member && any (λ role. contains doctype (team_read role)) roles))))

-- can_access_record where the permission is to write or create, past the case of a review.
abbrev pub can_change_record : List String → String → Bool → Bool
can_change_record roles doctype is_team_member =
    contains "GBOS Admin" roles
    || ((contains "Integration Admin" roles && contains doctype integration_doctypes)
        || (is_team_member && any (λ role. contains doctype (team_write role)) roles))

unfoldable pub can_access_record : List String → String → String → Bool → Bool → Bool → Bool
can_access_record roles doctype permission_type is_team_member is_assigned_reviewer
      is_assigned_review_subject =
    if not (contains doctype all_parent_doctypes)
    then false
    else if contains "Reviewer" roles
        && (is_assigned_review_subject
            && contains permission_type ("write" ∷ "create" ∷ "delete" ∷ []))
    then false
    else if permission_type == "read"
    then can_read_record roles doctype is_team_member is_assigned_reviewer
        is_assigned_review_subject
    else if permission_type == "approve"
    then doctype == "GBOS Review Case" && (is_assigned_reviewer && contains "Reviewer" roles)
    else if permission_type == "write" && doctype == "GBOS Review Case"
    then contains "GBOS Admin" roles
    else if contains permission_type ("write" ∷ "create" ∷ [])
    then can_change_record roles doctype is_team_member
    else if permission_type == "delete"
    then contains "GBOS Admin" roles
    else false

-- `assigned_roles & names`
abbrev pub meets : List String → List String → Bool
meets roles names = any (λ role. contains role names) roles

unfoldable pub can_access_crm_record : List String → String → String → Bool → Bool
can_access_crm_record roles doctype permission_type is_team_member =
    if not (contains doctype crm_doctypes)
    then false
    else if permission_type == "read"
    then meets roles ("GBOS Admin" ∷ "CEO" ∷ [])
      || ((is_team_member && meets roles crm_team)
          || (is_team_member
              && (contains "Product/R&D" roles && contains doctype product_crm_read)))
    else if contains permission_type ("write" ∷ "create" ∷ [])
    then contains "GBOS Admin" roles || (is_team_member && meets roles crm_team)
    else if permission_type == "delete"
    then contains "GBOS Admin" roles
    else false

unfoldable pub role_has_crm_doctype_permission : String → String → String → Bool
role_has_crm_doctype_permission role doctype permission_type =
    if not (contains doctype crm_doctypes)
    then false
    else if role == "GBOS Admin"
    then contains permission_type ("read" ∷ "write" ∷ "create" ∷ "delete" ∷ [])
    else if role == "CEO"
    then permission_type == "read"
    else if contains role crm_team
    then contains permission_type ("read" ∷ "write" ∷ "create" ∷ [])
    else role == "Product/R&D" && (permission_type == "read" && contains doctype product_crm_read)
