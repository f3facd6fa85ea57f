-- ===== src/Domain/Confinement.antt =====
-- What the permission hooks of apps/esan_gbos/esan_gbos/permissions.py cannot give away.
use esan_gbos.Prelude.{
  String, true, false, not, ◌&&◌, ◌||◌, Option, none, some, List, [], ◌∷◌, if◌then◌else◌, ◌==◌,
  string_eq, contains, opt_beq, any, ◌≡◌, refl, sym, subst, arith, Bool-cases, inl, inr, eq_of_==,
  split_or,
}
use esan_gbos.Prelude.Tables.{contains-all}
use esan_gbos.Tasks.Documents.{some_injective}
use esan_gbos.Domain.Permissions.{
  business_doctypes, integration_doctypes, all_parent_doctypes, internal_materializer_role,
  materialization_subject_doctypes, materialization_draft_doctypes, role_has_doctype_permission,
  can_access_record,
}
use esan_gbos.Domain.Roles.{can_access_record-role}
use esan_gbos.Domain.Grants.{admin_has, integration_has, by_role, member_any}
use esan_gbos.Domain.Access.{
  Mode, Scope, mode_in, Context, Document, is_internal_materializer, internal_materialization_mode,
  permitted_in, business_permission, has_gbos_permission, is_apply, is_team_member,
  is_assigned_review_subject,
}

-- The tables of the materializer hold DocTypes of the application.
subjects_known :
    (doctype : String)
    → contains doctype materialization_subject_doctypes || doctype == "GBOS Team" ≡ true
    → contains doctype all_parent_doctypes ≡ true
unfolding materialization_subject_doctypes all_parent_doctypes business_doctypes
    integration_doctypes
subjects_known doctype h =
    split_or (contains doctype materialization_subject_doctypes) _ h
      (λ k.
        contains-all (λ d. contains d all_parent_doctypes) doctype materialization_subject_doctypes
          k refl)
      (λ k.
        subst (λ d. contains d all_parent_doctypes ≡ true) (sym (eq_of_== doctype "GBOS Team" k))
          refl)

drafts_known :
    (doctype : String)
    → contains doctype materialization_draft_doctypes ≡ true
    → contains doctype all_parent_doctypes ≡ true
unfolding materialization_draft_doctypes all_parent_doctypes business_doctypes integration_doctypes
drafts_known doctype k =
    contains-all (λ d. contains d all_parent_doctypes) doctype materialization_draft_doctypes k refl

abbrev written_doctypes : List String
written_doctypes = "GBOS Work Item" ∷ "GBOS Review Case" ∷ []

written_known :
    (doctype : String)
    → contains doctype written_doctypes ≡ true
    → contains doctype all_parent_doctypes ≡ true
unfolding all_parent_doctypes business_doctypes integration_doctypes
written_known doctype k =
    contains-all (λ d. contains d all_parent_doctypes) doctype written_doctypes k refl

team_known :
    (doctype : String) → doctype == "GBOS Team" ≡ true → contains doctype all_parent_doctypes ≡ true
unfolding all_parent_doctypes business_doctypes integration_doctypes
team_known doctype k =
    subst (λ d. contains d all_parent_doctypes ≡ true) (sym (eq_of_== doctype "GBOS Team" k)) refl

review_known :
    (doctype : String)
    → doctype == "GBOS Review Case" ≡ true
    → contains doctype all_parent_doctypes ≡ true
unfolding all_parent_doctypes business_doctypes integration_doctypes
review_known doctype k =
    subst (λ d. contains d all_parent_doctypes ≡ true) (sym (eq_of_== doctype "GBOS Review Case" k))
      refl

integration_known :
    (doctype : String)
    → contains doctype integration_doctypes ≡ true
    → contains doctype all_parent_doctypes ≡ true
unfolding all_parent_doctypes business_doctypes integration_doctypes
integration_known doctype k =
    contains-all (λ d. contains d all_parent_doctypes) doctype integration_doctypes k refl

-- A materializer's role has what the hook permits in a scope.
permitted_in-role :
    (mode : Option Mode) (doctype action : String)
    → permitted_in mode doctype action ≡ true
    → role_has_doctype_permission internal_materializer_role doctype action ≡ true
unfolding role_has_doctype_permission
permitted_in-role none doctype action h = cc
permitted_in-role (some mode) doctype action h =
    let subjects = subjects_known doctype in
    let drafts = drafts_known doctype in let written = written_known doctype in ground arith

module _ (x : Context) where
  -- The mode of a scope that is there and was opened for the user.
  mode_in-some :
      (o : Option Scope) (user : String) (mode : Mode)
      → mode_in o user ≡ some mode
      → (scope : Scope) × (o ≡ some scope) × (scope.actor ≡ user) × (scope.mode ≡ mode)
  mode_in-some none user mode h = cc
  mode_in-some (some scope) user mode h = elim (Bool-cases (scope.actor == user)) [
    | inl own ↦
        let opened : some scope.mode ≡ some mode = rw own at h in
        (scope, refl, eq_of_== scope.actor user own, some_injective opened)
    | inr other ↦ let nothing : none ≡ some mode = rw other at h in cc
  ]

  mode-scope :
      (user : String) (mode : Mode)
      → internal_materialization_mode x user ≡ some mode
      → (scope : Scope) × (x.scope ≡ some scope) × (scope.actor ≡ user) × (scope.mode ≡ mode)
  unfolding internal_materialization_mode
  mode-scope user mode h = elim (Bool-cases (is_internal_materializer x user)) [
    | inl materializer ↦ mode_in-some x.scope user mode (rw materializer at h)
    | inr other ↦ let nothing : none ≡ some mode = rw other at h in cc
  ]

  -- A materializer is permitted nothing unless there is a scope, opened for that very user, and
  -- then nothing but what the role of a materializer carries; where the scope is not for applying,
  -- nothing but reading.
  pub materializer-confined :
      (doc : Document) (actor action : String)
      → is_internal_materializer x actor ≡ true
      → has_gbos_permission x doc actor action ≡ true
      → (role_has_doctype_permission internal_materializer_role doc.doctype action ≡ true)
        × (scope : Scope) × (x.scope ≡ some scope)
        × (scope.actor ≡ actor)
        × (is_apply scope.mode || action == "read" ≡ true)
  unfolding has_gbos_permission
  materializer-confined doc actor action materializer h =
      let permitted : permitted_in (internal_materialization_mode x actor) doc.doctype action
          ≡ true =
        ground arith in
      let (mode, at, reads) =
        mode_of (internal_materialization_mode x actor) doc.doctype action permitted in
      let (scope, there, own, same) = mode-scope actor mode at in
      (
        permitted_in-role _ doc.doctype action permitted,
        scope,
        there,
        own,
        subst (λ m. is_apply m || action == "read" ≡ true) (sym same) reads,
      )
    where
      mode_of :
          (o : Option Mode) (doctype action : String)
          → permitted_in o doctype action ≡ true
          → (mode : Mode) × (o ≡ some mode) × (is_apply mode || action == "read" ≡ true)
      mode_of none doctype action h = cc
      mode_of (some mode) doctype action h = (mode, refl, ground arith)

  abbrev actions : List String
  actions = "read" ∷ "write" ∷ "create" ∷ "delete" ∷ []

  not_approve : (action : String) → contains action actions ≡ true → action == "approve" ≡ false
  not_approve action listed =
      let other = contains-all (λ a. not (a == "approve")) action actions listed refl in
      ground arith

  business_permission-role :
      (doc : Document) (actor action : String)
      → contains action actions ≡ true
      → contains doc.doctype all_parent_doctypes ≡ true
      → business_permission x doc actor action ≡ true
      → any (λ role. role_has_doctype_permission role doc.doctype action) (x.get_roles actor) ≡ true
  business_permission-role doc actor action listed known h =
      let roles = x.get_roles actor in
      elim (Bool-cases (contains "GBOS Admin" roles)) [
        | inl admin ↦
            by_role doc.doctype known roles action "GBOS Admin" admin
              (admin_has doc.doctype known action listed)
        | inr other ↦
            elim (Bool-cases (
              contains "Integration Admin" roles
              && (contains doc.doctype integration_doctypes
                  && not (doc.doctype == "GBOS Team" && not (action == "read"))))) [
                    | inl integration ↦
                        by_role doc.doctype known roles action "Integration Admin" (ground arith)
                          (integration_has doc.doctype known action (ground arith) (ground arith))
                    | inr none_of_them ↦
                        can_access_record-role roles doc.doctype action
                          (is_team_member x actor
                            (if doc.doctype == "GBOS Team" then doc.name else doc.team))
                          (doc.doctype == "GBOS Review Case"
                            && opt_beq doc.assigned_reviewer (some actor))
                          (is_assigned_review_subject x actor doc.doctype doc.name)
                          (not_approve action listed) (ground arith)
                  ]
      ]

  -- The hook permits nothing on a DocType that the application does not have.
  business_permission-known :
      (doc : Document) (actor action : String)
      → business_permission x doc actor action ≡ true
      → contains doc.doctype all_parent_doctypes ≡ true
  unfolding can_access_record
  business_permission-known doc actor action h =
      elim (Bool-cases (contains doc.doctype all_parent_doctypes)) [
        | inl known ↦ known
        | inr unknown ↦
            let no_team = team_known doc.doctype in
            let no_review = review_known doc.doctype in
            let no_integration = integration_known doc.doctype in ground arith
      ]

  -- Whoever the hook lets read, write, create or delete a document has a role that carries that
  -- permission on the document's DocType, materializers included.
  pub has_gbos_permission-role :
      (doc : Document) (actor action : String)
      → contains action ("read" ∷ "write" ∷ "create" ∷ "delete" ∷ []) ≡ true
      → has_gbos_permission x doc actor action ≡ true
      → any (λ role. role_has_doctype_permission role doc.doctype action) (x.get_roles actor) ≡ true
  unfolding has_gbos_permission
  has_gbos_permission-role doc actor action listed h =
      elim (Bool-cases (is_internal_materializer x actor)) [
        | inl materializer ↦
            member_any internal_materializer_role
              (λ role. role_has_doctype_permission role doc.doctype action) (x.get_roles actor)
              materializer
              (permitted_in-role (internal_materialization_mode x actor) doc.doctype action
                (ground arith))
        | inr other ↦
            let permitted : business_permission x doc actor action ≡ true = ground arith in
            business_permission-role doc actor action listed
              (business_permission-known doc actor action permitted) permitted
      ]
