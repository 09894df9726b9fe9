-- ===== src/UserOrg/Tests.antt =====
-- A child under thirteen, whose linked parent loses access when consent is revoked.
use lms_saas.Prelude.{
  ℕ, ◌≡◌, ◌≢◌, refl, sym, ◌∙◌, find, ◌⊎◌, ◌↔◌, Bool, true, false, none, some, [], ◌∷◌, Text, text,
  arith,
}
use lms_saas.UserOrg.Consent.{
  under_13, adult, directory_information, granted, signed_form, ConsentRecord, ConsentStore,
  RecordConsentInput, record_consent, revoke_consent, get_age_band, list_consents, is_row,
}
use lms_saas.UserOrg.Consent.Unique.{start, recorded}
use lms_saas.UserOrg.Guardian.{
  GuardianStore, GuardianRelationshipRecord, parent, active, is_active, get_relationship,
}
use lms_saas.UserOrg.Guardian.Routes.{authorize}
use lms_saas.UserOrg.Guardian.Access.{HasGrant, authorize_iff, revoke_consent-denies}

abbrev ids : ℕ → Text
ids n = text "c1"

abbrev clock : ℕ → Text
clock n = text "now"

abbrev precedes : Text → Text → Bool
precedes a b = true

abbrev tenant : Text
tenant = text "t"

abbrev form : RecordConsentInput
form = record {
  subject_user_id = text "kid";
  age_band = under_13;
  consent_type = directory_information;
  status = some granted;
  guardian_name = none;
  guardian_email = none;
  method = some signed_form;
  recorded_by = none;
}

abbrev no_consents : ConsentStore
no_consents = record { rows = []; minted = 0; times = 0 }

abbrev consents : ConsentStore
consents = (record_consent ids clock no_consents tenant form).1

abbrev on_file : ConsentRecord
on_file = record {
  id = text "c1";
  tenant_id = tenant;
  subject_user_id = text "kid";
  age_band = under_13;
  consent_type = directory_information;
  status = granted;
  guardian_name = none;
  guardian_email = none;
  method = some signed_form;
  recorded_by = none;
  recorded_at = text "now";
  revoked_at = none;
}

abbrev links : GuardianStore
links = record {
  rows =
      record {
        id = text "g1";
        tenant_id = tenant;
        guardian_user_id = text "mum";
        student_user_id = text "kid";
        relationship = parent;
        status = active;
        consent_id = some (text "c1");
        note = none;
        created_by = none;
        created_at = text "now";
        updated_at = text "now";
        revoked_at = none;
      }
      ∷ [];
  minted = 1;
  times = 1;
}

authorize_iff_example :
    ((authorize precedes links consents tenant
        (text "mum")
        (text "kid")
        directory_information).allowed
      ≡ true)
    ↔ (((r : GuardianRelationshipRecord) × (get_relationship links tenant (text "mum") (text "kid")
            ≡ some r)
          × (is_active r.status ≡ true))
        × ((get_age_band precedes consents tenant (text "kid") ≡ adult)
            ⊎ HasGrant consents tenant (text "kid") directory_information))
authorize_iff_example = authorize_iff precedes links consents tenant (text "mum") (text "kid")

consent_found : find (is_row tenant (text "c1")) consents.rows ≡ some on_file
unfolding record_consent
consent_found = refl

child_remains :
    get_age_band precedes
      (revoke_consent ids clock consents tenant (text "c1")).1
      tenant
      (text "kid")
    ≡ under_13
unfolding get_age_band list_consents record_consent revoke_consent
child_remains = refl

under_13_ne_adult : under_13 ≢ adult
under_13_ne_adult e = absurd (ground arith)

revoke_consent-denies_example :
    (authorize precedes links
      (revoke_consent ids clock consents tenant (text "c1")).1
      tenant
      (text "mum")
      (text "kid")
      directory_information).allowed
    ≡ false
revoke_consent-denies_example =
    revoke_consent-denies ids clock precedes links consents tenant (text "c1") (text "mum") on_file
      (recorded no_consents tenant form start) consent_found refl
      (λ e. under_13_ne_adult (sym child_remains ∙ e))
