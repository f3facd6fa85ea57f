-- ===== src/Domain/Grants.antt =====
-- What role permissions of apps/esan_gbos/esan_gbos/domain/permissions.py each role is granted.
use esan_gbos.Prelude.{
  String, Bool, true, false, not, ◌&&◌, ◌||◌, List, [], ◌∷◌, ◌==◌, string_eq, contains, any, ◌≡◌,
  refl, sym, subst, arith, eq_of_==, Bool-cases, inl, inr, both, split_or,
}
use esan_gbos.Prelude.Tables.{any-exists, contains-all}
use esan_gbos.Domain.Permissions.{
  business_doctypes, integration_doctypes, all_parent_doctypes, internal_materializer_role,
  team_read, team_write, role_has_doctype_permission, can_read_record, can_change_record,
}

-- A role that someone has and that passes a test.
pub member_any :
    (name : String) (p : String → Bool) (roles : List String)
    → contains name roles ≡ true
    → p name ≡ true
    → any p roles ≡ true
member_any name p [] h t = cc
member_any name p (role ∷ roles) h t = elim (Bool-cases (name == role)) [
  | inl same ↦ let here = subst (λ r. p r ≡ true) (eq_of_== name role same) t in ground arith
  | inr other ↦ let rest = member_any name p roles (ground arith) t in ground arith
]

-- The roles that are not bound to a team have no team permissions.
abbrev special_roles : List String
special_roles =
    internal_materializer_role ∷ "GBOS Admin" ∷ "CEO" ∷ "Integration Admin" ∷ "Reviewer" ∷ []

team_read-special :
    (role doctype : String)
    → contains role special_roles ≡ true
    → not (contains doctype (team_read role)) ≡ true
unfolding team_read
team_read-special role doctype h =
    contains-all (λ r. not (contains doctype (team_read r))) role special_roles h refl

team_write-special :
    (role doctype : String)
    → contains role special_roles ≡ true
    → not (contains doctype (team_write role)) ≡ true
unfolding team_write
team_write-special role doctype h =
    contains-all (λ r. not (contains doctype (team_write r))) role special_roles h refl

review_case_business : contains "GBOS Review Case" business_doctypes ≡ true
unfolding business_doctypes
review_case_business = refl

module _ (doctype : String) (known : contains doctype all_parent_doctypes ≡ true) where
  read_by_team :
      (permission_type role : String)
      → (permission_type == "read") ≡ true
      → contains doctype (team_read role) ≡ true
      → role_has_doctype_permission role doctype permission_type ≡ true
  unfolding role_has_doctype_permission
  read_by_team permission_type role reads h = elim (Bool-cases (contains role special_roles)) [
    | inl special ↦ let none_left = team_read-special role doctype special in ground arith
    | inr other ↦ ground arith
  ]

  change_by_team :
      (permission_type role : String)
      → (permission_type == "read") ≡ false
      → contains permission_type ("write" ∷ "create" ∷ []) ≡ true
      → contains doctype (team_write role) ≡ true
      → role_has_doctype_permission role doctype permission_type ≡ true
  unfolding role_has_doctype_permission
  change_by_team permission_type role not_read change h =
      elim (Bool-cases (contains role special_roles)) [
        | inl special ↦ let none_left = team_write-special role doctype special in ground arith
        | inr other ↦ ground arith
      ]

  pub admin_has :
      (permission_type : String)
      → contains permission_type ("read" ∷ "write" ∷ "create" ∷ "delete" ∷ []) ≡ true
      → role_has_doctype_permission "GBOS Admin" doctype permission_type ≡ true
  unfolding role_has_doctype_permission
  admin_has permission_type h = ground arith

  ceo_has :
      (permission_type : String)
      → (permission_type == "read") ≡ true
      → contains doctype business_doctypes || doctype == "GBOS Team" ≡ true
      → role_has_doctype_permission "CEO" doctype permission_type ≡ true
  unfolding role_has_doctype_permission
  ceo_has permission_type h k = ground arith

  pub integration_has :
      (permission_type : String)
      → contains permission_type ("read" ∷ "write" ∷ "create" ∷ []) ≡ true
      → contains doctype integration_doctypes ≡ true
      → role_has_doctype_permission "Integration Admin" doctype permission_type ≡ true
  unfolding role_has_doctype_permission
  integration_has permission_type h k = ground arith

  reviewer_has :
      (permission_type : String)
      → (permission_type == "read") ≡ true
      → contains doctype business_doctypes ≡ true
      → role_has_doctype_permission "Reviewer" doctype permission_type ≡ true
  unfolding role_has_doctype_permission
  reviewer_has permission_type h k = ground arith

  module _ (roles : List String) (permission_type : String) where
    abbrev pub someone_may : Bool
    someone_may = any (λ role. role_has_doctype_permission role doctype permission_type) roles

    pub by_role :
        (name : String)
        → contains name roles ≡ true
        → role_has_doctype_permission name doctype permission_type ≡ true
        → someone_may ≡ true
    by_role name h t =
        member_any name (λ role. role_has_doctype_permission role doctype permission_type) roles h t

    pub read_rule :
        (is_team_member is_assigned_reviewer is_assigned_review_subject : Bool)
        → (permission_type == "read") ≡ true
        → can_read_record roles doctype is_team_member is_assigned_reviewer
            is_assigned_review_subject
          ≡ true
        → someone_may ≡ true
    read_rule is_team_member is_assigned_reviewer is_assigned_review_subject reads h =
        split_or (contains "GBOS Admin" roles) _ h
          (λ k. by_role "GBOS Admin" k (admin_has permission_type (ground arith)))
          λ h1.
            split_or
              (contains "CEO" roles
                && (contains doctype business_doctypes || doctype == "GBOS Team"))
              _ h1
              (λ k.
                let (has, is_business) = both _ _ k in
                by_role "CEO" has (ceo_has permission_type reads is_business))
              λ h2.
                split_or
                  (contains "Integration Admin" roles && contains doctype integration_doctypes) _ h2
                  (λ k.
                    let (has, is_integration) = both _ _ k in
                    by_role "Integration Admin" has
                      (integration_has permission_type (ground arith) is_integration))
                  λ h3.
                    split_or
                      (contains "Reviewer" roles
                        && ((doctype == "GBOS Review Case" && is_assigned_reviewer)
                            || (contains doctype business_doctypes && is_assigned_review_subject)))
                      _ h3
                      (λ k.
                        let (has, reviewed) = both _ _ k in
                        by_role "Reviewer" has (
                          reviewer_has permission_type reads
                            (is_business is_assigned_reviewer is_assigned_review_subject reviewed)))
                      λ h4.
                        any-exists (λ role. contains doctype (team_read role))
                          (λ role. role_has_doctype_permission role doctype permission_type) roles
                          (λ role. read_by_team permission_type role reads) (both _ _ h4).1
      where
        review_case :
            doctype == "GBOS Review Case" ≡ true → contains doctype business_doctypes ≡ true
        review_case same =
            subst (λ d. contains d business_doctypes ≡ true)
              (sym (eq_of_== doctype "GBOS Review Case" same)) review_case_business

        is_business :
            (ar as' : Bool)
            → (doctype == "GBOS Review Case" && ar) || (contains doctype business_doctypes && as')
              ≡ true
            → contains doctype business_doctypes ≡ true
        is_business ar as' k = elim (Bool-cases (doctype == "GBOS Review Case")) [
          | inl same ↦ review_case same
          | inr other ↦ ground arith
        ]

    pub change_rule :
        (is_team_member : Bool)
        → (permission_type == "read") ≡ false
        → contains permission_type ("write" ∷ "create" ∷ []) ≡ true
        → can_change_record roles doctype is_team_member ≡ true
        → someone_may ≡ true
    change_rule is_team_member not_read change h =
        split_or (contains "GBOS Admin" roles) _ h
          (λ k. by_role "GBOS Admin" k (admin_has permission_type (ground arith)))
          λ h1.
            split_or (contains "Integration Admin" roles && contains doctype integration_doctypes) _
              h1
              (λ k.
                let (has, is_integration) = both _ _ k in
                by_role "Integration Admin" has
                  (integration_has permission_type (ground arith) is_integration))
              λ h2.
                any-exists (λ role. contains doctype (team_write role))
                  (λ role. role_has_doctype_permission role doctype permission_type) roles
                  (λ role. change_by_team permission_type role not_read change) (both _ _ h2).1
