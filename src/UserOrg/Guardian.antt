-- ===== src/UserOrg/Guardian.antt =====
-- Links of guardians to students: services/user-org/src/guardian.ts and guardian.memory.ts.
-- `user_exists` is the constructor's predicate for the tenant of the call.
pub mod Routes
pub mod Admin
pub mod Access
use lms_saas.Prelude.{
  ℕ, suc, Bool, true, false, not, ◌&&◌, Option, none, some, List, [], ◌∷◌, ◌++◌, map, Text, text,
  text_eq, ◌==◌, find, filter, any, update_first, if◌then◌else◌, is_uuid,
}
use lms_saas.UserOrg.Consent.{
  AgeBand, adult, ConsentType, data_collection, third_party_sharing, directory_information,
  ai_features, ConsentRecord, is_granted, same_type, ConsentStore, DataPolicyDecision,
  data_collection_decision, list_consents, get_age_band,
}

pub data GuardianKind : Type 0 where
  parent guardian other : GuardianKind

pub data GuardianStatus : Type 0 where
  pending active revoked : GuardianStatus

pub record GuardianRelationshipRecord : Type 0 where
  pub id : Text
  pub tenant_id : Text
  pub guardian_user_id : Text
  pub student_user_id : Text
  pub relationship : GuardianKind
  pub status : GuardianStatus
  pub consent_id : Option Text
  pub note : Option Text
  pub created_by : Option Text
  pub created_at : Text
  pub updated_at : Text
  pub revoked_at : Option Text

pub record CreateRelationshipInput : Type 0 where
  pub guardian_user_id : Text
  pub student_user_id : Text
  pub relationship : Option GuardianKind
  pub note : Option Text
  pub created_by : Option Text

pub data CreateRelationshipResult : Type 0 where
  linked : GuardianRelationshipRecord → CreateRelationshipResult
  guardian_not_found student_not_found link_exists : CreateRelationshipResult

-- MemoryGuardianStore, and how often the id source and the clock were read.
pub record GuardianStore : Type 0 where
  pub rows : List GuardianRelationshipRecord
  pub minted : ℕ
  pub times : ℕ

abbrev pub is_pair : Text → Text → Text → GuardianRelationshipRecord → Bool
is_pair tenant guardian_id student_id r =
    (r.tenant_id == tenant)
    && (r.guardian_user_id == guardian_id)
    && (r.student_user_id == student_id)

abbrev pub is_link : Text → Text → GuardianRelationshipRecord → Bool
is_link tenant id r = (r.id == id) && (r.tenant_id == tenant)

abbrev kind_of : Option GuardianKind → GuardianKind
kind_of none = guardian
kind_of (some kind) = kind

abbrev pub is_active : GuardianStatus → Bool
is_active active = true
is_active _ = false

-- listGuardiansForStudent
unfoldable pub list_guardians_for_student :
    GuardianStore → Text → Text → List GuardianRelationshipRecord
list_guardians_for_student s tenant student =
    filter (λ r. (r.tenant_id == tenant) && (r.student_user_id == student)) s.rows

-- listStudentsForGuardian
unfoldable pub list_students_for_guardian :
    GuardianStore → Text → Text → List GuardianRelationshipRecord
list_students_for_guardian s tenant guardian_id =
    filter (λ r. (r.tenant_id == tenant) && (r.guardian_user_id == guardian_id)) s.rows

-- getRelationshipById
unfoldable pub get_relationship_by_id :
    GuardianStore → Text → Text → Option GuardianRelationshipRecord
get_relationship_by_id s tenant id = find (is_link tenant id) s.rows

-- getRelationship
unfoldable pub get_relationship :
    GuardianStore → Text → Text → Text → Option GuardianRelationshipRecord
get_relationship s tenant guardian_id student = find (is_pair tenant guardian_id student) s.rows

module _ (ids clock : ℕ → Text) where
  abbrev new_relationship :
      GuardianStore → Text → CreateRelationshipInput → GuardianRelationshipRecord
  new_relationship s tenant i = record {
    id = ids s.minted;
    tenant_id = tenant;
    guardian_user_id = i.guardian_user_id;
    student_user_id = i.student_user_id;
    relationship = kind_of i.relationship;
    status = pending;
    consent_id = none;
    note = i.note;
    created_by = i.created_by;
    created_at = clock s.times;
    updated_at = clock s.times;
    revoked_at = none;
  }

  -- createRelationship
  unfoldable pub create_relationship :
      (Text → Bool)
      → GuardianStore
      → Text
      → CreateRelationshipInput
      → CreateRelationshipResult × GuardianStore
  create_relationship user_exists s tenant i =
      if not (user_exists i.guardian_user_id)
      then (guardian_not_found, s)
      else if not (user_exists i.student_user_id)
      then (student_not_found, s)
      else if any (is_pair tenant i.guardian_user_id i.student_user_id) s.rows
      then (link_exists, s)
      else let relationship = new_relationship s tenant i in
        (
          linked relationship,
          record {
            rows = s.rows ++ (relationship ∷ []);
            minted = suc s.minted;
            times = suc s.times;
          },
        )

  abbrev pub activated :
      Option Text → Text → GuardianRelationshipRecord → GuardianRelationshipRecord
  activated consent_id now r = record r {
    status = active;
    consent_id = consent_id;
    updated_at = now;
  }

  -- activateRelationship
  unfoldable pub activate_relationship :
      GuardianStore → Text → Text → Option Text → Option GuardianRelationshipRecord × GuardianStore
  activate_relationship s tenant id consent_id = elim (find (is_link tenant id) s.rows) [
    | none ↦ (none, s)
    | some row ↦ (
      some (activated consent_id (clock s.times) row),
      record s {
        rows = update_first (is_link tenant id) (activated consent_id (clock s.times)) s.rows;
        times = suc s.times;
      },
    )
  ]

  abbrev pub ended : Text → Text → GuardianRelationshipRecord → GuardianRelationshipRecord
  ended now later r = record r { status = revoked; revoked_at = some now; updated_at = later }

  -- revokeRelationship
  unfoldable pub revoke_relationship :
      GuardianStore → Text → Text → Option GuardianRelationshipRecord × GuardianStore
  revoke_relationship s tenant id = elim (find (is_link tenant id) s.rows) [
    | none ↦ (none, s)
    | some row ↦ (
      some (ended (clock s.times) (clock (suc s.times)) row),
      record s {
        rows =
            update_first (is_link tenant id) (ended (clock s.times) (clock (suc s.times))) s.rows;
        times = suc (suc s.times);
      },
    )
  ]

-- evaluateGuardianConsent
unfoldable pub evaluate_guardian_consent :
    Text → AgeBand → ConsentType → List ConsentType → Bool × DataPolicyDecision
evaluate_guardian_consent student adult category granted_consents = (
  true,
  record {
    subject_user_id = student;
    age_band = adult;
    category = category;
    allowed = true;
    requires_consent = false;
    reason = text "Adult student: no age-based consent gate for this category.";
  },
)
evaluate_guardian_consent student band category granted_consents =
    let decision = data_collection_decision student band category granted_consents in
    (decision.allowed, decision)
