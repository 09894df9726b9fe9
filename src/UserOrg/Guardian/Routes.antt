-- ===== src/UserOrg/Guardian/Routes.antt =====
-- The access that a link gives, gated by consent: services/user-org/src/guardian.routes.ts. A query
-- parameter that is absent is `none`, and so is a tenant context whose resolution throws.
use lms_saas.Prelude.{
  Bool, false, not, Option, none, some, List, [], ◌∷◌, ◌++◌, map, Text, text, text_eq, ◌==◌, find,
  filter, if◌then◌else◌, is_uuid,
}
use lms_saas.UserOrg.Consent.{
  AgeBand, ConsentType, data_collection, third_party_sharing, directory_information, ai_features,
  ConsentRecord, is_granted, same_type, ConsentStore, DataPolicyDecision, list_consents,
  get_age_band,
}
use lms_saas.UserOrg.Guardian.{
  GuardianKind, GuardianStatus, pending, active, revoked, GuardianRelationshipRecord, GuardianStore,
  is_active, list_guardians_for_student, list_students_for_guardian, get_relationship,
  evaluate_guardian_consent,
}

pub record GuardianAuthorizeDecision : Type 0 where
  pub allowed : Bool
  pub reason : Text
  pub relationship_status : Option GuardianStatus
  pub age_band : AgeBand
  pub consent_satisfied : Bool

abbrev status_text : GuardianStatus → Text
status_text pending = text "pending"
status_text active = text "active"
status_text revoked = text "revoked"

abbrev refusal_reason : Option GuardianStatus → Text
refusal_reason none = text "No guardian relationship exists for this pair."
refusal_reason (some status) =
    text "Relationship is '" ++ (status_text status ++ text "', not active.")

-- The child that a guardian may see.
pub record AuthorizedChild : Type 0 where
  pub student_user_id : Text
  pub relationship : GuardianKind

-- The guardian whom a notice about a student may reach.
pub record AuthorizedGuardian : Type 0 where
  pub guardian_user_id : Text
  pub relationship : GuardianKind

abbrev authorized_guardian : GuardianRelationshipRecord → AuthorizedGuardian
authorized_guardian r = record {
  guardian_user_id = r.guardian_user_id;
  relationship = r.relationship;
}

pub record Gate : Type 0 where
  pub age_band : AgeBand
  pub consent_satisfied : Bool
  pub decision : DataPolicyDecision
  pub gating_consent_id : Option Text

pub data Reply {ℓ} (A : Type ℓ) : Type ℓ where
  ok : A → Reply A
  tenant_required bad_request not_found consent_required self_link conflict : Reply A

abbrev pub consent_type_of : Text → Option ConsentType
consent_type_of s =
    if s == text "data_collection"
    then some data_collection
    else if s == text "third_party_sharing"
    then some third_party_sharing
    else if s == text "directory_information"
    then some directory_information
    else if s == text "ai_features"
    then some ai_features
    else none

abbrev category_of : Option Text → Option ConsentType
category_of none = some directory_information
category_of (some s) = consent_type_of s

abbrev consent_id_of : Option ConsentRecord → Option Text
consent_id_of none = none
consent_id_of (some c) = some c.id

abbrev pub granted_rows : ConsentStore → Text → Text → List ConsentRecord
unfolding list_consents
granted_rows s tenant student = filter (λ c. is_granted c.status) (list_consents s tenant student)

module _ (precedes : Text → Text → Bool) where
  -- gateFor
  unfoldable pub gate_for : ConsentStore → Text → Text → ConsentType → Gate
  unfolding evaluate_guardian_consent
  gate_for consents tenant student category =
      let band = get_age_band precedes consents tenant student in
      let granted = granted_rows consents tenant student in
      let (satisfied, decision) =
        evaluate_guardian_consent student band category (map (λ c. c.consent_type) granted) in
      record {
        age_band = band;
        consent_satisfied = satisfied;
        decision = decision;
        gating_consent_id = consent_id_of (find (λ c. same_type c.consent_type category) granted);
      }

  abbrev pub refused :
      ConsentStore → Text → Text → Option GuardianStatus → GuardianAuthorizeDecision
  refused consents tenant student status = record {
    allowed = false;
    reason = refusal_reason status;
    relationship_status = status;
    age_band = get_age_band precedes consents tenant student;
    consent_satisfied = false;
  }

  abbrev pub authorize_link :
      ConsentStore
      → Text
      → Text
      → ConsentType
      → Option GuardianRelationshipRecord
      → GuardianAuthorizeDecision
  authorize_link consents tenant student category none = refused consents tenant student none
  authorize_link consents tenant student category (some r) =
      if not (is_active r.status)
      then refused consents tenant student (some r.status)
      else let gate = gate_for consents tenant student category in
        record {
          allowed = gate.consent_satisfied;
          reason =
              if gate.consent_satisfied
              then text "Active guardian relationship and consent is satisfied."
              else gate.decision.reason;
          relationship_status = some r.status;
          age_band = gate.age_band;
          consent_satisfied = gate.consent_satisfied;
        }

  -- The rest of GET /guardians/authorize, on parameters that are valid.
  unfoldable pub authorize :
      GuardianStore → ConsentStore → Text → Text → Text → ConsentType → GuardianAuthorizeDecision
  authorize links consents tenant guardian_id student category =
      authorize_link consents tenant student category
        (get_relationship links tenant guardian_id student)

  -- The loop of GET /guardians/:guardianId/children/authorized.
  abbrev pub gated_children :
      ConsentStore → Text → List GuardianRelationshipRecord → List AuthorizedChild
  gated_children consents tenant [] = []
  gated_children consents tenant (r ∷ rows) =
      let rest = gated_children consents tenant rows in
      if (gate_for consents tenant r.student_user_id directory_information).consent_satisfied
      then record { student_user_id = r.student_user_id; relationship = r.relationship } ∷ rest
      else rest

  -- GET /guardians/:guardianId/children/authorized
  unfoldable pub authorized_children_route :
      GuardianStore → ConsentStore → Option Text → Text → Reply (List AuthorizedChild)
  authorized_children_route links consents none guardian_id = tenant_required
  authorized_children_route links consents (some tenant) guardian_id =
      if not (is_uuid guardian_id)
      then bad_request
      else ok (
          gated_children consents tenant (
            filter (λ r. is_active r.status) (list_students_for_guardian links tenant guardian_id)))

  -- GET /students/:studentId/guardians/authorized
  unfoldable pub authorized_guardians_route :
      GuardianStore → ConsentStore → Option Text → Text → Reply (List AuthorizedGuardian)
  authorized_guardians_route links consents none student = tenant_required
  authorized_guardians_route links consents (some tenant) student =
      if not (is_uuid student)
      then bad_request
      else let live =
          filter (λ r. is_active r.status) (list_guardians_for_student links tenant student) in
        if (gate_for consents tenant student directory_information).consent_satisfied
        then ok (map authorized_guardian live)
        else ok []

  module _ (trim : Text → Text) where
    -- `isNonEmptyString(value) && UUID_RE.test(value)`
    abbrev uuid_param : Option Text → Option Text
    uuid_param none = none
    uuid_param (some s) = if trim s == [] then none else if is_uuid s then some s else none

    abbrev authorize_params :
        GuardianStore
        → ConsentStore
        → Text
        → Option Text
        → Option Text
        → Option ConsentType
        → Reply GuardianAuthorizeDecision
    authorize_params links consents tenant (some g) (some student) (some category) =
        ok (authorize links consents tenant g student category)
    authorize_params links consents tenant _ _ _ = bad_request

    -- GET /guardians/authorize, with its three query parameters.
    unfoldable pub authorize_route :
        GuardianStore
        → ConsentStore
        → Option Text
        → Option Text
        → Option Text
        → Option Text
        → Reply GuardianAuthorizeDecision
    authorize_route links consents none guardian_id student category = tenant_required
    authorize_route links consents (some tenant) guardian_id student category =
        authorize_params links consents tenant (uuid_param guardian_id) (uuid_param student)
          (category_of category)
