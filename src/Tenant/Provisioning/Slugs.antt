-- ===== src/Tenant/Provisioning/Slugs.antt =====
-- Slugs route requests, so no two tenants may share one.
use lms_saas.Prelude.{
  ◌≡◌, ◌≢◌, refl, sym, ap, subst, ◌∙◌, ◌⊎◌, inl, inr, Bool-cases, if_case, Bool, true, false,
  Option, none, some, List, [], ◌∷◌, ◌++◌, map, last?, last?-append_one, Text, text_eq, option_eq,
  ◌==◌, eq_iff, find, any, any-append, any-update_first, update_first, arith,
}
use mathlib.Core.List.{map-append}
use lms_saas.Tenant.Registry.{TenantRecord, has_id, standalone}
use lms_saas.Tenant.Provisioning.{
  ProvisionTenantInput, ProvisionTenantResult, provisioned, slug_taken, unknown_plan,
  unknown_parent, TenantStore, new_tenant, promoted, with_district, provisioned_event,
  insert_tenant, provision_plan, provision_parent, parent_of, plan_of, normalize_slug, has_slug,
  provision_tenant, get_tenant_by_slug,
}

-- All of a tenant but its kind and the time of its last change.
abbrev pub apart_from_kind : TenantRecord → TenantRecord
apart_from_kind t = record t { kind = standalone; updated_at = [] }

-- The new tenant stays last, since one with a parent is no standalone.
update_first-last :
    (p : TenantRecord → Bool) (f : TenantRecord → TenantRecord) (ts : List TenantRecord)
    (t : TenantRecord)
    → f t ≡ t
    → last? (update_first p f (ts ++ (t ∷ []))) ≡ some t
update_first-last p f [] t same = ground (arith, same)
update_first-last p f (x ∷ []) t same = ground (arith, same)
update_first-last p f (x ∷ y ∷ ts) t same =
    ground (arith, last?-append_one ts t, update_first-last p f (y ∷ ts) t same)

with_district-last :
    (now slug id : Text) (i : ProvisionTenantInput) (p : Option TenantRecord) (plan : Option Text)
    (ts : List TenantRecord)
    → last? (with_district now p (ts ++ (new_tenant id now slug i p plan ∷ [])))
      ≡ some (new_tenant id now slug i p plan)
with_district-last now slug id i none plan ts = last?-append_one ts _
with_district-last now slug id i (some p) plan ts =
    update_first-last (has_id p.id) (promoted now) ts _ refl

with_district-kept :
    (now : Text) (p : Option TenantRecord) (ts : List TenantRecord)
    → map apart_from_kind (with_district now p ts) ≡ map apart_from_kind ts
with_district-kept now none ts = refl
with_district-kept now (some p) [] = refl
with_district-kept now (some p) (x ∷ ts) = ground (arith, with_district-kept now (some p) ts)

find-last {ℓ} :
    {A : Type ℓ} (q : A → Bool) (xs : List A) (y : A)
    → any q xs ≡ false
    → q y ≡ true
    → find q (xs ++ (y ∷ [])) ≡ some y
find-last q [] y none_before here = ground arith
find-last q (x ∷ xs) y none_before here = ground (arith, find-last q xs y)

-- A change before or at the one element that a search finds.
find-changed {ℓ} :
    {A : Type ℓ} (p q : A → Bool) (f : A → A) (xs : List A) (y : A)
    → any q xs ≡ false
    → q y ≡ true
    → ((a : A) → q (f a) ≡ q a)
    → f y ≡ y
    → find q (update_first p f (xs ++ (y ∷ []))) ≡ some y
find-changed p q f [] y none_before here same kept = ground (arith, kept)
find-changed p q f (x ∷ xs) y none_before here same kept =
    ground (arith, same x, find-changed p q f xs y, find-last q xs y)

module _ (trim to_lower_case : Text → Text) where
  abbrev normal : Text → Text
  normal = normalize_slug trim to_lower_case

  abbrev has : Text → TenantRecord → Bool
  has = has_slug trim to_lower_case

  abbrev provision :
      TenantStore → Text → Text → ProvisionTenantInput → ProvisionTenantResult × TenantStore
  provision = provision_tenant trim to_lower_case

  abbrev same_slug : TenantRecord → TenantRecord → Bool
  same_slug t u = has (normal t.slug) u

  abbrev pub IsUnique : List TenantRecord → Type 0
  IsUnique [] = Unit
  IsUnique (t ∷ ts) = (any (same_slug t) ts ≡ false) × IsUnique ts

  same_slug_symm : (t u : TenantRecord) → same_slug t u ≡ same_slug u t
  same_slug_symm t u =
      ground (arith, eq_iff (normal t.slug) (normal u.slug), eq_iff (normal u.slug) (normal t.slug))

  append-IsUnique :
      (ts : List TenantRecord) (t : TenantRecord)
      → any (same_slug t) ts ≡ false
      → IsUnique ts
      → IsUnique (ts ++ (t ∷ []))
  append-IsUnique [] t new u = (refl, tt)
  append-IsUnique (x ∷ ts) t new u = (
    ground (arith, any-append (same_slug x) ts (t ∷ []), same_slug_symm x t, u.0),
    append-IsUnique ts t (ground arith) u.1,
  )

  -- A change that keeps the slug.
  update_first-IsUnique :
      (p : TenantRecord → Bool) (f : TenantRecord → TenantRecord) (ts : List TenantRecord)
      → ((t : TenantRecord) → (f t).slug ≡ t.slug)
      → IsUnique ts
      → IsUnique (update_first p f ts)
  update_first-IsUnique p f [] same u = tt
  update_first-IsUnique p f (x ∷ ts) same u = elim (Bool-cases (p x)) [
    | inl here ↦ rw here (subst (λ s. any (has (normal s)) ts ≡ false) (sym (same x)) u.0, u.1)
    | inr there ↦ rw there (
      any-update_first p (same_slug x) f ts (λ t. ap (λ s. normal s == normal x.slug) (same t))
          ∙ u.0,
      update_first-IsUnique p f ts same u.1,
    )
  ]

  module _ {κ} (P : ProvisionTenantResult × TenantStore → Type κ) (s : TenantStore) (id now : Text)
      (i : ProvisionTenantInput) where
    -- A property of `provisionTenant`: of a refusal, and of a tenant with a new slug.
    provision_cases :
        ((r : ProvisionTenantResult) → ((t : TenantRecord) → r ≢ provisioned t) → P (r, s))
        → (any (has (normal i.slug)) s.tenants ≡ false
            → (p : Option TenantRecord) (plan : Option Text)
            → P (insert_tenant s now p (new_tenant id now (normal i.slug) i p plan)))
        → P (provision s id now i)
    unfolding provision_tenant provision_parent provision_plan
    provision_cases refused inserted =
        if_case P (any (has (normal i.slug)) s.tenants) _ _ (λ _. refused slug_taken (λ t. cc))
          (λ new. on_parent new (parent_of s.tenants i.parent_tenant_id))
      where
        slug : Text
        slug = normal i.slug

        on_plan :
            any (has slug) s.tenants ≡ false
            → (p : Option TenantRecord) (o : Option (Option Text))
            → P (provision_plan s id now slug i p o)
        on_plan new p none = refused unknown_plan (λ t. cc)
        on_plan new p (some plan) = inserted new p plan

        on_parent :
            any (has slug) s.tenants ≡ false
            → (o : Option (Option TenantRecord)) → P (provision_parent s id now slug i o)
        on_parent new none = refused unknown_parent (λ t. cc)
        on_parent new (some p) = on_plan new p (plan_of i.plan p)

  promoted_slug : (now : Text) (t : TenantRecord) → (promoted now t).slug ≡ t.slug
  promoted_slug now t = ground arith

  with_district-IsUnique :
      (now : Text) (p : Option TenantRecord) (ts : List TenantRecord)
      → IsUnique ts
      → IsUnique (with_district now p ts)
  with_district-IsUnique now none ts u = u
  with_district-IsUnique now (some p) ts u =
      update_first-IsUnique (has_id p.id) (promoted now) ts (promoted_slug now) u

  module _ (idempotent : (s : Text) → normal (normal s) ≡ normal s) where
    -- Provisioning keeps the slugs of the registry apart: no two tenants have the same slug up to
    -- case and blanks, if none had before and normalising twice is normalising once.
    pub provision_tenant-IsUnique :
        (s : TenantStore) (id now : Text) (i : ProvisionTenantInput)
        → IsUnique s.tenants
        → IsUnique (provision s id now i).1.tenants
    unfolding insert_tenant
    provision_tenant-IsUnique s id now i u =
        provision_cases (λ r. IsUnique r.1.tenants) s id now i (λ r _. u)
          λ new p plan.
            with_district-IsUnique now p
              (s.tenants ++ (new_tenant id now (normal i.slug) i p plan ∷ []))
              (append-IsUnique s.tenants (new_tenant id now (normal i.slug) i p plan)
                (ap (λ t. any (has t) s.tenants) (idempotent i.slug) ∙ new) u)

    district_get :
        (id now slug wanted : Text) (i : ProvisionTenantInput) (p : Option TenantRecord)
        (plan : Option Text) (ts : List TenantRecord)
        → any (has wanted) ts ≡ false
        → normal slug ≡ wanted
        → find (has wanted) (with_district now p (ts ++ (new_tenant id now slug i p plan ∷ [])))
          ≡ some (new_tenant id now slug i p plan)
    district_get id now slug wanted i none plan ts new here =
        find-last (has wanted) ts (new_tenant id now slug i none plan) new
          ((eq_iff (normal slug) wanted).1 here)
    district_get id now slug wanted i (some p) plan ts new here =
        find-changed (has_id p.id) (has wanted) (promoted now) ts
          (new_tenant id now slug i (some p) plan) new ((eq_iff (normal slug) wanted).1 here)
          (λ t. ap (λ s. normal s == wanted) (promoted_slug now t)) refl

    -- A tenant that was provisioned is the one that its slug finds, in the spelling of the request or
    -- in any that normalises to the same, if normalising twice is normalising once.
    pub provision_tenant-get :
        (s : TenantStore) (id now spelling : Text) (i : ProvisionTenantInput) (t : TenantRecord)
        → normal spelling ≡ normal i.slug
        → (provision s id now i).0 ≡ provisioned t
        → get_tenant_by_slug trim to_lower_case (provision s id now i).1.tenants spelling ≡ some t
    unfolding insert_tenant get_tenant_by_slug
    provision_tenant-get s id now spelling i t same =
        provision_cases
          (λ r. r.0 ≡ provisioned t → find (has (normal spelling)) r.1.tenants ≡ some t) s id now i
          (λ r not h. absurd (not t h))
          λ new p plan h.
            let found =
              district_get id now (normal i.slug) (normal spelling) i p plan s.tenants (rw same new)
                (idempotent i.slug ∙ sym same) in
            ground (arith, found, h)

  -- Provisioning is all or nothing: it is refused and leaves the store as it was, or it answers a
  -- tenant that now ends the registry, behind the tenants that were there, which are as before but for
  -- their kinds and times of change, and has recorded exactly that tenant's event, at the end of the
  -- outbox.
  pub provision_tenant-outbox :
      (s : TenantStore) (id now : Text) (i : ProvisionTenantInput)
      → (((t : TenantRecord) → (provision s id now i).0 ≢ provisioned t)
          × ((provision s id now i).1 ≡ s))
        ⊎ ((t : TenantRecord) × ((provision s id now i).0 ≡ provisioned t)
            × (last? (provision s id now i).1.tenants ≡ some t)
            × (map apart_from_kind (provision s id now i).1.tenants
                ≡ map apart_from_kind s.tenants ++ (apart_from_kind t ∷ []))
            × ((provision s id now i).1.outbox ≡ s.outbox ++ (provisioned_event t ∷ [])))
  unfolding insert_tenant
  provision_tenant-outbox s id now i =
      provision_cases
        (λ r.
          (((t : TenantRecord) → r.0 ≢ provisioned t) × (r.1 ≡ s))
          ⊎ ((t : TenantRecord) × (r.0 ≡ provisioned t)
              × (last? r.1.tenants ≡ some t)
              × (map apart_from_kind r.1.tenants
                  ≡ map apart_from_kind s.tenants ++ (apart_from_kind t ∷ []))
              × (r.1.outbox ≡ s.outbox ++ (provisioned_event t ∷ []))))
        s id now i (λ r no. inl (no, refl))
        (λ new p plan.
          let t = new_tenant id now (normal i.slug) i p plan in
          inr (
            t,
            refl,
            with_district-last now (normal i.slug) id i p plan s.tenants,
            with_district-kept now p (s.tenants ++ (t ∷ []))
                ∙ map-append apart_from_kind s.tenants (t ∷ []),
            refl,
          ))
