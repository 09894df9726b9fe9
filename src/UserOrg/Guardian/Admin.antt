-- ===== src/UserOrg/Guardian/Admin.antt =====
-- The routes by which staff manage links: services/user-org/src/guardian.routes.ts. A field of a body
-- is a JSON value.
use lms_saas.Prelude.{
  ℕ, Bool, not, Option, none, some, List, Text, text, text_eq, ◌==◌, [], if◌then◌else◌, is_uuid,
}
use lms_saas.Audit.Json.{Value, undefined, null, string}
use lms_saas.UserOrg.Consent.{directory_information, ConsentStore}
use lms_saas.UserOrg.Guardian.{
  GuardianKind, parent, guardian, other, GuardianRelationshipRecord, GuardianStore,
  CreateRelationshipResult, linked, guardian_not_found, student_not_found, link_exists,
  list_guardians_for_student, list_students_for_guardian, get_relationship_by_id,
  create_relationship, activate_relationship, revoke_relationship,
}
use lms_saas.UserOrg.Guardian.Routes.{
  Reply, ok, tenant_required, bad_request, not_found, consent_required, self_link, conflict, Gate,
  gate_for,
}

-- The body of POST /guardians.
pub record LinkBody : Type 0 where
  pub guardian_user_id : Value
  pub student_user_id : Value
  pub relationship : Value
  pub note : Value
  pub created_by : Value

-- The kind that is named, none where there is none and unless it is unknown.
abbrev kind_field : Value → Option (Option GuardianKind)
kind_field undefined = some none
kind_field (string s) =
    if s == text "parent"
    then some (some parent)
    else if s == text "guardian"
    then some (some guardian)
    else if s == text "other"
    then some (some other)
    else none
kind_field _ = none

abbrev link_response : CreateRelationshipResult → Reply GuardianRelationshipRecord
link_response (linked r) = ok r
link_response link_exists = conflict
link_response guardian_not_found = not_found
link_response student_not_found = not_found

abbrev found_response : Option GuardianRelationshipRecord → Reply GuardianRelationshipRecord
found_response none = not_found
found_response (some r) = ok r

-- GET /students/:studentId/guardians
unfoldable pub guardians_route :
    GuardianStore → Option Text → Text → Reply (List GuardianRelationshipRecord)
guardians_route links none student = tenant_required
guardians_route links (some tenant) student =
    if not (is_uuid student)
    then bad_request
    else ok (list_guardians_for_student links tenant student)

-- GET /guardians/:guardianId/students
unfoldable pub students_route :
    GuardianStore → Option Text → Text → Reply (List GuardianRelationshipRecord)
students_route links none guardian_id = tenant_required
students_route links (some tenant) guardian_id =
    if not (is_uuid guardian_id)
    then bad_request
    else ok (list_students_for_guardian links tenant guardian_id)

module _ (ids clock : ℕ → Text) where
  -- POST /guardians/:id/revoke
  unfoldable pub revoke_route :
      GuardianStore → Option Text → Text → Reply GuardianRelationshipRecord × GuardianStore
  revoke_route links none id = (tenant_required, links)
  revoke_route links (some tenant) id =
      if not (is_uuid id)
      then (bad_request, links)
      else let (row, after) = revoke_relationship ids clock links tenant id in
        (found_response row, after)

  module _ (precedes : Text → Text → Bool) where
    abbrev activate_gated :
        GuardianStore → Text → Text → Gate → Reply GuardianRelationshipRecord × GuardianStore
    activate_gated links tenant id gate =
        if not gate.consent_satisfied
        then (consent_required, links)
        else let (row, after) =
            activate_relationship ids clock links tenant id gate.gating_consent_id in
          (found_response row, after)

    abbrev activate_found :
        GuardianStore
        → ConsentStore
        → Text
        → Text
        → Option GuardianRelationshipRecord
        → Reply GuardianRelationshipRecord × GuardianStore
    activate_found links consents tenant id none = (not_found, links)
    activate_found links consents tenant id (some existing) =
        activate_gated links tenant id
          (gate_for precedes consents tenant existing.student_user_id directory_information)

    -- POST /guardians/:id/activate
    unfoldable pub activate_route :
        GuardianStore
        → ConsentStore
        → Option Text
        → Text
        → Reply GuardianRelationshipRecord × GuardianStore
    activate_route links consents none id = (tenant_required, links)
    activate_route links consents (some tenant) id =
        if not (is_uuid id)
        then (bad_request, links)
        else activate_found links consents tenant id (get_relationship_by_id links tenant id)

  module _ (trim : Text → Text) (user_exists : Text → Text → Bool) where
    -- isNonEmptyString
    abbrev non_empty : Value → Option Text
    non_empty (string s) = if trim s == [] then none else some s
    non_empty _ = none

    abbrev uuid_field : Value → Option Text
    uuid_field v = elim (non_empty v) [ none ↦ none | some s ↦ if is_uuid s then some s else none ]

    -- The creator, none where there is none and unless it is not a UUID.
    abbrev creator_field : Value → Option (Option Text)
    creator_field undefined = some none
    creator_field null = some none
    creator_field v = elim (uuid_field v) [ none ↦ none | some s ↦ some (some s) ]

    abbrev note_field : Value → Option Text
    note_field v = elim (non_empty v) [ none ↦ none | some s ↦ some (trim s) ]

    abbrev link_users :
        GuardianStore
        → Text
        → LinkBody
        → Option Text
        → Option Text
        → Option (Option GuardianKind)
        → Option (Option Text)
        → Reply GuardianRelationshipRecord × GuardianStore
    link_users links tenant body (some g) (some student) kind creator =
        if g == student then (self_link, links) else elim kind [
          | none ↦ (bad_request, links)
          | some k ↦ elim creator [
            | none ↦ (bad_request, links)
            | some c ↦
                let (result, after) =
                  create_relationship ids clock (user_exists tenant) links tenant (record {
                    guardian_user_id = g;
                    student_user_id = student;
                    relationship = k;
                    note = note_field body.note;
                    created_by = c;
                  }) in
                (link_response result, after)
          ]
        ]
    link_users links tenant body _ _ kind creator = (bad_request, links)

    -- POST /guardians
    unfoldable pub create_route :
        GuardianStore → Option Text → LinkBody → Reply GuardianRelationshipRecord × GuardianStore
    create_route links none body = (tenant_required, links)
    create_route links (some tenant) body =
        link_users links tenant body (uuid_field body.guardian_user_id)
          (uuid_field body.student_user_id) (kind_field body.relationship)
          (creator_field body.created_by)
