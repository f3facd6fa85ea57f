-- ===== src/Domain/Roles.antt =====
-- How record access and role permissions of apps/esan_gbos/esan_gbos/domain/permissions.py agree.
use esan_gbos.Prelude.{
  String, Bool, true, false, ◌||◌, List, ◌==◌, string_eq, contains, any, ◌≡◌, arith, Bool-cases,
  inl, inr,
}
use esan_gbos.Domain.Permissions.{
  all_parent_doctypes, role_has_doctype_permission, can_access_record,
}
use esan_gbos.Domain.Grants.{admin_has, by_role, read_rule, change_rule}

-- Someone outside the record's team, who is not its reviewer and is assigned no review of it, can
-- do something with it only under a role that is not bound to a team.
pub outsider-global :
    (roles : List String) (doctype permission_type : String)
    → can_access_record roles doctype permission_type false false false ≡ true
    → contains "GBOS Admin" roles || (contains "CEO" roles || contains "Integration Admin" roles)
      ≡ true
unfolding can_access_record
outsider-global roles doctype permission_type h = ground arith

-- Whoever can do anything with a record but approve it has a role that carries that permission on
-- the record's DocType: record access only narrows the permissions of roles.
pub can_access_record-role :
    (roles : List String) (doctype permission_type : String)
    (is_team_member is_assigned_reviewer is_assigned_review_subject : Bool)
    → (permission_type == "approve") ≡ false
    → can_access_record roles doctype permission_type is_team_member is_assigned_reviewer
        is_assigned_review_subject
      ≡ true
    → any (λ role. role_has_doctype_permission role doctype permission_type) roles ≡ true
unfolding can_access_record
can_access_record-role roles doctype permission_type is_team_member is_assigned_reviewer
      is_assigned_review_subject not_approve h =
    let known : contains doctype all_parent_doctypes ≡ true = ground arith in
    elim (Bool-cases (permission_type == "read")) [
      | inl reads ↦
          read_rule doctype known roles permission_type is_team_member is_assigned_reviewer
            is_assigned_review_subject reads (ground arith)
      | inr not_read ↦ elim (Bool-cases (contains "GBOS Admin" roles)) [
        | inl admin ↦
            by_role doctype known roles permission_type "GBOS Admin" admin
              (admin_has doctype known permission_type (ground arith))
        | inr other ↦
            change_rule doctype known roles permission_type is_team_member not_read (ground arith)
              (ground arith)
      ]
    ]
