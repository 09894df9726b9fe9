-- ===== src/UserOrg/Consent.antt =====
-- Consent to the handling of a minor's data: services/user-org/src/consent.ts and consent.memory.ts.
-- `ids` and `clock` are what `generateId` and `now().toISOString()` return, call by call; `precedes a b`
-- is `a.localeCompare(b) <= 0`.
pub mod Unique
use lms_saas.Prelude.{
  ℕ, suc, Bool, true, false, not, ◌&&◌, ◌||◌, Option, none, some, List, [], ◌∷◌, ◌++◌, Text, text,
  text_eq, ◌==◌, find, filter, any, update_first, if◌then◌else◌,
}

pub data AgeBand : Type 0 where
  under_13 teen adult unknown : AgeBand

pub data ConsentType : Type 0 where
  data_collection third_party_sharing directory_information ai_features : ConsentType

pub data ConsentStatus : Type 0 where
  pending granted revoked : ConsentStatus

pub data ConsentMethod : Type 0 where
  verifiable_email signed_form in_person no_method : ConsentMethod

pub record ConsentRecord : Type 0 where
  pub id : Text
  pub tenant_id : Text
  pub subject_user_id : Text
  pub age_band : AgeBand
  pub consent_type : ConsentType
  pub status : ConsentStatus
  pub guardian_name : Option Text
  pub guardian_email : Option Text
  pub method : Option ConsentMethod
  pub recorded_by : Option Text
  pub recorded_at : Text
  pub revoked_at : Option Text

pub record RecordConsentInput : Type 0 where
  pub subject_user_id : Text
  pub age_band : AgeBand
  pub consent_type : ConsentType
  pub status : Option ConsentStatus
  pub guardian_name : Option Text
  pub guardian_email : Option Text
  pub method : Option ConsentMethod
  pub recorded_by : Option Text

abbrev pub same_type : ConsentType → ConsentType → Bool
same_type data_collection data_collection = true
same_type third_party_sharing third_party_sharing = true
same_type directory_information directory_information = true
same_type ai_features ai_features = true
same_type _ _ = false

abbrev pub is_granted : ConsentStatus → Bool
is_granted granted = true
is_granted _ = false

abbrev is_revoked : ConsentStatus → Bool
is_revoked revoked = true
is_revoked _ = false

-- isMinor
unfoldable pub is_minor : AgeBand → Bool
is_minor under_13 = true
is_minor teen = true
is_minor _ = false

-- requiresConsentFor
abbrev pub requires_consent_for : AgeBand → ConsentType → Bool
requires_consent_for adult category = false
requires_consent_for under_13 category = true
requires_consent_for _ category = not (same_type category data_collection)

pub record DataPolicyDecision : Type 0 where
  pub subject_user_id : Text
  pub age_band : AgeBand
  pub category : ConsentType
  pub allowed : Bool
  pub requires_consent : Bool
  pub reason : Text

abbrev reason_without_consent : AgeBand → Text
reason_without_consent under_13 =
    text "COPPA: verifiable parental consent is required before collecting data for under-13 users."
reason_without_consent _ = text "Consent is required for this category for minors."

-- dataCollectionDecision
abbrev pub data_collection_decision :
    Text → AgeBand → ConsentType → List ConsentType → DataPolicyDecision
data_collection_decision subject band category granted_consents =
    let required = requires_consent_for band category in
    let held = any (λ t. same_type t category) granted_consents in
    record {
      subject_user_id = subject;
      age_band = band;
      category = category;
      allowed = not required || held;
      requires_consent = required;
      reason =
          if not required
          then text "No age-based restriction for this category."
          else if held
          then text "Verifiable parental consent is on file."
          else reason_without_consent band;
    }

-- MemoryConsentStore, and how often the id source and the clock were read.
pub record ConsentStore : Type 0 where
  pub rows : List ConsentRecord
  pub minted : ℕ
  pub times : ℕ

-- The row of a subject's consent of one type.
abbrev pub is_for : Text → Text → ConsentType → ConsentRecord → Bool
is_for tenant subject category r =
    (r.tenant_id == tenant) && (r.subject_user_id == subject) && same_type r.consent_type category

abbrev pub is_row : Text → Text → ConsentRecord → Bool
is_row tenant id r = (r.id == id) && (r.tenant_id == tenant)

abbrev pub status_of : Option ConsentStatus → ConsentStatus
status_of none = pending
status_of (some status) = status

abbrev pub id_of : Option ConsentRecord → Text → Text
id_of none fresh = fresh
id_of (some r) fresh = r.id

-- The record that replaces or joins the rows; a revoked one reads the clock again.
abbrev pub base_of : Text → Text → RecordConsentInput → Text → Text → ConsentRecord
base_of id tenant i now later = record {
  id = id;
  tenant_id = tenant;
  subject_user_id = i.subject_user_id;
  age_band = i.age_band;
  consent_type = i.consent_type;
  status = status_of i.status;
  guardian_name = i.guardian_name;
  guardian_email = i.guardian_email;
  method = i.method;
  recorded_by = i.recorded_by;
  recorded_at = now;
  revoked_at = if is_revoked (status_of i.status) then some later else none;
}

-- listConsents
unfoldable pub list_consents : ConsentStore → Text → Text → List ConsentRecord
list_consents s tenant subject =
    filter (λ r. (r.tenant_id == tenant) && (r.subject_user_id == subject)) s.rows

module _ (ids clock : ℕ → Text) where
  abbrev pub times_after : RecordConsentInput → ℕ → ℕ
  times_after i times = if is_revoked (status_of i.status) then suc (suc times) else suc times

  abbrev pub record_found :
      ConsentStore → Text → RecordConsentInput → Option ConsentRecord → ConsentRecord × ConsentStore
  record_found s tenant i none =
      let base = base_of (ids s.minted) tenant i (clock s.times) (clock (suc s.times)) in
      (
        base,
        record {
          rows = s.rows ++ (base ∷ []);
          minted = suc s.minted;
          times = times_after i s.times;
        },
      )
  record_found s tenant i (some existing) =
      let base = base_of existing.id tenant i (clock s.times) (clock (suc s.times)) in
      (
        base,
        record s {
          rows = update_first (is_for tenant i.subject_user_id i.consent_type) (λ r. base) s.rows;
          times = times_after i s.times;
        },
      )

  -- recordConsent
  unfoldable pub record_consent :
      ConsentStore → Text → RecordConsentInput → ConsentRecord × ConsentStore
  record_consent s tenant i =
      record_found s tenant i (find (is_for tenant i.subject_user_id i.consent_type) s.rows)

  abbrev pub withdrawn : Text → ConsentRecord → ConsentRecord
  withdrawn now r = record r { status = revoked; revoked_at = some now }

  abbrev pub revoke_found :
      ConsentStore → Text → Text → Option ConsentRecord → Option ConsentRecord × ConsentStore
  revoke_found s tenant id none = (none, s)
  revoke_found s tenant id (some row) = (
    some (withdrawn (clock s.times) row),
    record s {
      rows = update_first (is_row tenant id) (withdrawn (clock s.times)) s.rows;
      times = suc s.times;
    },
  )

  -- revokeConsent
  unfoldable pub revoke_consent : ConsentStore → Text → Text → Option ConsentRecord × ConsentStore
  revoke_consent s tenant id = revoke_found s tenant id (find (is_row tenant id) s.rows)

module _ (precedes : Text → Text → Bool) where
  -- `mine.sort((a, b) => b.recordedAt.localeCompare(a.recordedAt))`
  abbrev insert_latest : ConsentRecord → List ConsentRecord → List ConsentRecord
  insert_latest r [] = r ∷ []
  insert_latest r (q ∷ rows) =
      if precedes q.recorded_at r.recorded_at then r ∷ q ∷ rows else q ∷ insert_latest r rows

  abbrev latest_first : List ConsentRecord → List ConsentRecord
  latest_first [] = []
  latest_first (r ∷ rows) = insert_latest r (latest_first rows)

  abbrev band_of : List ConsentRecord → AgeBand
  band_of [] = unknown
  band_of (r ∷ rows) = r.age_band

  -- getAgeBand
  unfoldable pub get_age_band : ConsentStore → Text → Text → AgeBand
  unfolding list_consents
  get_age_band s tenant subject = band_of (latest_first (list_consents s tenant subject))
