-- ===== src/UserOrg/Consent/Unique.antt =====
-- A subject has one row for each type of consent, so that a revocation leaves none granted:
-- services/user-org/src/consent.memory.ts.
use lms_saas.Prelude.{
  find-none, find-holds, IsPairwise, IsPairwise-append_one, IsPairwise-update_kept, ℕ, suc, ◌≡◌,
  refl, sym, subst, ◌∙◌, ◌↔◌, inl, inr, Bool-cases, Bool, true, false, ◌&&◌, Option, none, some,
  List, [], ◌∷◌, Text, text_eq, eq_iff, find, find-All, any, update_first, All, All-map, arith,
}
use lms_saas.UserOrg.Consent.{
  ConsentType, ConsentRecord, RecordConsentInput, ConsentStore, same_type, is_granted, is_for,
  is_row, record_found, record_consent, base_of, withdrawn, revoke_found, revoke_consent,
}

pub same_type_iff : (a b : ConsentType) → (same_type a b ≡ true) ↔ (a ≡ b)
same_type_iff a b = ground arith

-- The row holds the same consent as another.
abbrev pub is_same : ConsentRecord → ConsentRecord → Bool
is_same r q = is_for r.tenant_id r.subject_user_id r.consent_type q

-- No two rows hold the same consent.
abbrev pub AreApart : ConsentRecord → ConsentRecord → Type 0
AreApart r q = is_same r q ≡ false

abbrev pub IsUnique : List ConsentRecord → Type 0
IsUnique rows = IsPairwise AreApart rows

module _ (ids clock : ℕ → Text) where
  -- The stores that calls reach from the empty one.
  pub data IsReached : ConsentStore → Type 0 where
    start : IsReached (record { rows = []; minted = 0; times = 0 })
    recorded :
        (s : ConsentStore) (tenant : Text) (i : RecordConsentInput)
        → IsReached s
        → IsReached (record_consent ids clock s tenant i).1
    withdrew :
        (s : ConsentStore) (tenant id : Text)
        → IsReached s
        → IsReached (revoke_consent ids clock s tenant id).1

is_for-key :
    (tenant subject : Text) (category : ConsentType) (r : ConsentRecord)
    → is_for tenant subject category r ≡ true
    → (r.tenant_id ≡ tenant) × (r.subject_user_id ≡ subject) × (r.consent_type ≡ category)
is_for-key tenant subject category r h = (
  ground (arith, eq_iff r.tenant_id tenant),
  ground (arith, eq_iff r.subject_user_id subject),
  ground (arith, same_type_iff r.consent_type category),
)

-- Records with one key are the same as one another's others.
is_same-key :
    (a b : ConsentRecord)
    → a.tenant_id ≡ b.tenant_id
    → a.subject_user_id ≡ b.subject_user_id
    → a.consent_type ≡ b.consent_type
    → (q : ConsentRecord) → (is_same a q ≡ is_same b q) × (is_same q a ≡ is_same q b)
is_same-key a b t s c q = (rw t (rw s (rw c refl)), rw t (rw s (rw c refl)))

is_same-apart :
    (r b : ConsentRecord)
    → is_for b.tenant_id b.subject_user_id b.consent_type r ≡ false
    → is_same r b ≡ false
is_same-apart r b h = ground (
  arith,
  eq_iff r.tenant_id b.tenant_id,
  eq_iff b.tenant_id r.tenant_id,
  eq_iff r.subject_user_id b.subject_user_id,
  eq_iff b.subject_user_id r.subject_user_id,
  same_type_iff r.consent_type b.consent_type,
  same_type_iff b.consent_type r.consent_type,
)

module _ (ids clock : ℕ → Text) where
  record_found-IsUnique :
      (s : ConsentStore) (tenant : Text) (i : RecordConsentInput) (found : Option ConsentRecord)
      → find (is_for tenant i.subject_user_id i.consent_type) s.rows ≡ found
      → IsUnique s.rows
      → IsUnique (record_found ids clock s tenant i found).1.rows
  record_found-IsUnique s tenant i none h u =
      let base = base_of (ids s.minted) tenant i (clock s.times) (clock (suc s.times)) in
      IsPairwise-append_one AreApart s.rows base
        (All-map (λ r. is_for tenant i.subject_user_id i.consent_type r ≡ false)
          (λ r. AreApart r base) s.rows (λ r e. is_same-apart r base e)
          (find-none (is_for tenant i.subject_user_id i.consent_type) s.rows h))
        u
  record_found-IsUnique s tenant i (some existing) h u =
      let base = base_of existing.id tenant i (clock s.times) (clock (suc s.times)) in
      let here = find-holds (is_for tenant i.subject_user_id i.consent_type) s.rows existing h in
      let (t, subject, c) = is_for-key tenant i.subject_user_id i.consent_type existing here in
      let same = is_same-key base existing (sym t) (sym subject) (sym c) in
      IsPairwise-update_kept AreApart (is_for tenant i.subject_user_id i.consent_type) (λ r. base)
        s.rows existing (λ q apart. (same q).0 ∙ apart) (λ q apart. (same q).1 ∙ apart) h u

  revoke_found-IsUnique :
      (s : ConsentStore) (tenant id : Text) (found : Option ConsentRecord)
      → find (is_row tenant id) s.rows ≡ found
      → IsUnique s.rows
      → IsUnique (revoke_found ids clock s tenant id found).1.rows
  revoke_found-IsUnique s tenant id none h u = u
  revoke_found-IsUnique s tenant id (some row) h u =
      IsPairwise-update_kept AreApart (is_row tenant id) (withdrawn ids clock (clock s.times))
        s.rows row (λ q apart. apart) (λ q apart. apart) h u

  pub IsReached-IsUnique : (s : ConsentStore) → IsReached ids clock s → IsUnique s.rows
  unfolding record_consent revoke_consent
  IsReached-IsUnique s start = tt
  IsReached-IsUnique _ (recorded s tenant i reached) =
      record_found-IsUnique s tenant i _ refl (IsReached-IsUnique s reached)
  IsReached-IsUnique _ (withdrew s tenant id reached) =
      revoke_found-IsUnique s tenant id _ refl (IsReached-IsUnique s reached)

-- A granted row of the subject's consent of the type.
abbrev pub is_grant : Text → Text → ConsentType → ConsentRecord → Bool
is_grant tenant subject category r = is_for tenant subject category r && is_granted r.status

any-is_grant-apart :
    (row : ConsentRecord) (rows : List ConsentRecord)
    → All (λ q. is_same row q ≡ false) rows
    → any (is_grant row.tenant_id row.subject_user_id row.consent_type) rows ≡ false
any-is_grant-apart row [] apart = refl
any-is_grant-apart row (q ∷ rows) apart =
    ground (arith, apart.0, any-is_grant-apart row rows apart.1)

-- Where rows are unique, the row that is found and withdrawn leaves no grant of its consent.
pub any-is_grant-withdrawn :
    (tenant id : Text) (f : ConsentRecord → ConsentRecord) (row : ConsentRecord)
    (rows : List ConsentRecord)
    → ((r : ConsentRecord) → is_granted (f r).status ≡ false)
    → IsUnique rows
    → find (is_row tenant id) rows ≡ some row
    → any
        (is_grant row.tenant_id row.subject_user_id row.consent_type)
        (update_first (is_row tenant id) f rows)
      ≡ false
any-is_grant-withdrawn tenant id f row [] off u h = absurd (ground arith)
any-is_grant-withdrawn tenant id f row (r ∷ rows) off u h = elim (Bool-cases (is_row tenant id r)) [
  | inl here ↦
      let same : r ≡ row = ground (arith, here) in
      let rest =
        any-is_grant-apart row rows (subst (λ x. All (λ q. is_same x q ≡ false) rows) same u.0) in
      rw here (ground (arith, off r, rest))
  | inr there ↦
      let found : find (is_row tenant id) rows ≡ some row = rw there at h in
      let apart = find-All (λ q. is_same r q ≡ false) (is_row tenant id) rows row u.0 found in
      let gone = is_same-apart row r apart in
      let rest = any-is_grant-withdrawn tenant id f row rows off u.1 found in
      rw there (ground (arith, gone, rest))
]
