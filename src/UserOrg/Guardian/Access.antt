-- ===== src/UserOrg/Guardian/Access.antt =====
-- Who may see a student's data: the answer of GET /guardians/authorize in
-- services/user-org/src/guardian.routes.ts, before and after consent is revoked.
use lms_saas.Prelude.{
  ℕ, ◌≡◌, ◌≢◌, refl, sym, ap, subst, ◌∙◌, ◌⊎◌, ◌↔◌, inl, inr, Bool-cases, Bool, true, false, ◌&&◌,
  Option, none, some, List, [], ◌∷◌, map, Text, text_eq, ◌==◌, eq_iff, find, find-holds, filter,
  any, update_first, arith,
}
use lms_saas.UserOrg.Consent.{
  AgeBand, under_13, teen, adult, unknown, ConsentType, directory_information, same_type,
  is_granted, is_row, withdrawn, ConsentRecord, ConsentStore, list_consents, get_age_band,
  revoke_found, revoke_consent,
}
use lms_saas.UserOrg.Consent.Unique.{
  IsReached, IsReached-IsUnique, is_grant, any-is_grant-withdrawn,
}
use lms_saas.UserOrg.Guardian.{
  GuardianStore, GuardianRelationshipRecord, is_active, get_relationship, evaluate_guardian_consent,
}
use lms_saas.UserOrg.Guardian.Routes.{granted_rows, gate_for, authorize_link, authorize}

-- The student's consent of the type is granted.
abbrev pub HasGrant : ConsentStore → Text → Text → ConsentType → Type 0
HasGrant consents tenant student category =
    any (is_grant tenant student category) consents.rows ≡ true

any-map-filter :
    {A : Type 0} {B : Type 0} (mine held all : A → Bool) (image : A → B) (wanted : B → Bool)
    (xs : List A)
    → ((x : A) → all x ≡ (mine x && (held x && wanted (image x))))
    → any wanted (map image (filter held (filter mine xs))) ≡ any all xs
any-map-filter mine held all image wanted [] h = refl
any-map-filter mine held all image wanted (x ∷ xs) h =
    ground (arith, h x, any-map-filter mine held all image wanted xs h)

and_shuffle : (a b c d : Bool) → ((a && b && c) && d) ≡ ((a && b) && (d && c))
and_shuffle true true true d = ground arith
and_shuffle true true false d = ground arith
and_shuffle true false c d = refl
and_shuffle false b c d = refl

includes-granted :
    (consents : ConsentStore) (tenant student : Text) (category : ConsentType)
    → any
        (λ t. same_type t category)
        (map (λ c. c.consent_type) (granted_rows consents tenant student))
      ≡ any (is_grant tenant student category) consents.rows
unfolding list_consents
includes-granted consents tenant student category =
    any-map-filter (λ r. (r.tenant_id == tenant) && (r.subject_user_id == student))
      (λ c. is_granted c.status) (is_grant tenant student category) (λ c. c.consent_type)
      (λ t. same_type t category) consents.rows
      (λ r.
        and_shuffle (r.tenant_id == tenant) (r.subject_user_id == student)
          (same_type r.consent_type category) (is_granted r.status))

evaluate-directory :
    (student : Text) (band : AgeBand) (granted : List ConsentType)
    → ((evaluate_guardian_consent student band directory_information granted).0 ≡ true)
      ↔ ((band ≡ adult) ⊎ (any (λ t. same_type t directory_information) granted ≡ true))
unfolding evaluate_guardian_consent
evaluate-directory student under_13 granted = ground arith
evaluate-directory student teen granted = ground arith
evaluate-directory student adult granted = ground arith
evaluate-directory student unknown granted = ground arith

module _ (precedes : Text → Text → Bool) where
  gate_for-directory :
      (consents : ConsentStore) (tenant student : Text)
      → ((gate_for precedes consents tenant student directory_information).consent_satisfied ≡ true)
        ↔ ((get_age_band precedes consents tenant student ≡ adult)
            ⊎ HasGrant consents tenant student directory_information)
  unfolding gate_for
  gate_for-directory consents tenant student =
      subst
        (λ b.
          ((gate_for precedes consents tenant student directory_information).consent_satisfied
            ≡ true)
          ↔ ((get_age_band precedes consents tenant student ≡ adult) ⊎ (b ≡ true)))
        (includes-granted consents tenant student directory_information)
        (evaluate-directory student (get_age_band precedes consents tenant student)
          (map (λ c. c.consent_type) (granted_rows consents tenant student)))

  authorize_link-gate :
      (consents : ConsentStore) (tenant student : Text) (link : Option GuardianRelationshipRecord)
      → (authorize_link precedes consents tenant student directory_information link).allowed ≡ true
      → ((r : GuardianRelationshipRecord) × (link ≡ some r) × (is_active r.status ≡ true))
        × ((gate_for precedes consents tenant student directory_information).consent_satisfied
            ≡ true)
  authorize_link-gate consents tenant student none h = absurd (ground arith)
  authorize_link-gate consents tenant student (some r) h = elim (Bool-cases (is_active r.status)) [
    | inl live ↦ ((r, refl, live), (rw live at h))
    | inr dead ↦ absurd (ground (arith, rw dead at h))
  ]

  -- Who is let in: a guardian is authorized for a student's directory information exactly when the
  -- link between the two is active and either the latest age band of the student is adult or a consent
  -- to directory information is on file as granted for the student.
  pub authorize_iff :
      (links : GuardianStore) (consents : ConsentStore) (tenant guardian_id student : Text)
      → ((authorize precedes links consents tenant guardian_id student
            directory_information).allowed
          ≡ true)
        ↔ (((r : GuardianRelationshipRecord) × (get_relationship links tenant guardian_id student
                ≡ some r)
              × (is_active r.status ≡ true))
            × ((get_age_band precedes consents tenant student ≡ adult)
                ⊎ HasGrant consents tenant student directory_information))
  unfolding authorize
  authorize_iff links consents tenant guardian_id student = (
    λ h.
        let (link, gate) =
          authorize_link-gate consents tenant student
            (get_relationship links tenant guardian_id student) h in
        (link, (gate_for-directory consents tenant student).0 gate),
    λ ((r, found, live), reason).
        let gate = (gate_for-directory consents tenant student).1 reason in
        ap (λ o. (authorize_link precedes consents tenant student directory_information o).allowed)
          found
        ∙ rw live gate,
  )

module _ (ids clock : ℕ → Text) (precedes : Text → Text → Bool) where
  revoke_found-HasGrant :
      (s : ConsentStore) (tenant id : Text) (row : ConsentRecord)
      → IsReached ids clock s
      → find (is_row tenant id) s.rows ≡ some row
      → HasGrant
          (revoke_consent ids clock s tenant id).1
          tenant
          row.subject_user_id
          row.consent_type
      → ⊥
  unfolding revoke_consent
  revoke_found-HasGrant s tenant id row reached found h =
      let mine = find-holds (is_row tenant id) s.rows row found in
      let here : row.tenant_id ≡ tenant = ground (arith, eq_iff row.tenant_id tenant) in
      let off =
        any-is_grant-withdrawn tenant id (withdrawn ids clock (clock s.times)) row s.rows
          (λ r. refl) (IsReached-IsUnique ids clock s reached) found in
      let rows : (revoke_found ids clock s tenant id (find (is_row tenant id) s.rows)).1.rows
          ≡ update_first (is_row tenant id) (withdrawn ids clock (clock s.times)) s.rows =
        ap (λ o. (revoke_found ids clock s tenant id o).1.rows) found in
      let on =
        subst
          (λ t.
            any (is_grant t row.subject_user_id row.consent_type)
              (revoke_found ids clock s tenant id (find (is_row tenant id) s.rows)).1.rows
            ≡ true)
          (sym here) h in
      absurd (ground (arith, off, rows, on))

  -- A revocation denies at once: in a consent store that the calls reach, once a consent to directory
  -- information is revoked, no guardian is authorized for the student's directory information,
  -- whatever the links, unless the latest age band of the student is adult.
  pub revoke_consent-denies :
      (links : GuardianStore) (s : ConsentStore) (tenant id guardian_id : Text)
      (row : ConsentRecord)
      → IsReached ids clock s
      → find (is_row tenant id) s.rows ≡ some row
      → row.consent_type ≡ directory_information
      → get_age_band precedes (revoke_consent ids clock s tenant id).1 tenant row.subject_user_id
        ≢ adult
      → (authorize precedes links
          (revoke_consent ids clock s tenant id).1
          tenant
          guardian_id
          row.subject_user_id
          directory_information).allowed
        ≡ false
  revoke_consent-denies links s tenant id guardian_id row reached found kind minor =
      let after = (revoke_consent ids clock s tenant id).1 in
      elim (Bool-cases
        (authorize precedes links after tenant guardian_id row.subject_user_id
          directory_information).allowed) [
            | inr denied ↦ denied
            | inl allowed ↦
                elim ((authorize_iff precedes links after tenant guardian_id row.subject_user_id).0
                  allowed).1 [
                    | inl grown ↦ absurd (minor grown)
                    | inr held ↦ absurd (
                        revoke_found-HasGrant s tenant id row reached found
                          (subst (HasGrant after tenant row.subject_user_id) (sym kind) held))
                  ]
          ]
