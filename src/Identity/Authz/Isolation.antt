-- ===== src/Identity/Authz/Isolation.antt =====
-- Grants and org units of one tenant do not reach another: services/identity/src/authz.memory.ts.
use lms_saas.Prelude.{
  ◌≡◌, ◌≢◌, refl, ap, ◌∙◌, Option, none, some, List, Text, text_eq, lookup-insert_ne, Lacks,
  append-separator-injective,
}
use lms_saas.Identity.Authz.{
  Grant, AuthzStore, key_of, or_empty, list_grants, get_ancestry, seed_grant, seed_org_unit,
  check_access, OrgUnitAncestry, check_target, check_fields, non_empty, check_route, ok,
}

-- Keys of different tenants differ.
key_of-apart : (a b x y : Text) → Lacks 58 a → Lacks 58 b → a ≢ b → key_of a x ≢ key_of b y
key_of-apart a b x y pa pb apart e = apart (append-separator-injective 58 a b x y pa pb e).0

-- What another tenant seeds.
abbrev pub seed_both : AuthzStore → Text → Text → Grant → Text → List Text → AuthzStore
seed_both s tenant user g id path = seed_org_unit (seed_grant s tenant user g) tenant id path

module _ (s : AuthzStore) (tenant other user id : Text) (g : Grant) (path : List Text)
    (plain : Lacks 58 tenant) (plain_other : Lacks 58 other) (apart : other ≢ tenant) where
  list_grants-seed_both :
      (u : Text) → list_grants (seed_both s other user g id path) tenant u ≡ list_grants s tenant u
  unfolding list_grants seed_grant seed_org_unit
  list_grants-seed_both u = ap or_empty (
      lookup-insert_ne (key_of tenant u) (key_of other user) _ s.grants
        (key_of-apart other tenant user u plain_other plain apart))

  get_ancestry-seed_both :
      (o : Text)
      → get_ancestry (seed_both s other user g id path) tenant o ≡ get_ancestry s tenant o
  unfolding get_ancestry seed_grant seed_org_unit
  get_ancestry-seed_both o =
      lookup-insert_ne (key_of tenant o) (key_of other id) _ s.ancestry
        (key_of-apart other tenant id o plain_other plain apart)

  check_target-seed_both :
      (u p : Text) (target : Option OrgUnitAncestry)
      → check_target (seed_both s other user g id path) tenant u p target
        ≡ check_target s tenant u p target
  check_target-seed_both u p none = refl
  check_target-seed_both u p (some target) =
      ap (λ gs. ok (check_access gs p target)) (list_grants-seed_both u)

  check_fields-seed_both :
      (u p o : Option Text)
      → check_fields (seed_both s other user g id path) tenant u p o ≡ check_fields s tenant u p o
  check_fields-seed_both (some u) (some p) (some o) =
      ap (check_target (seed_both s other user g id path) tenant u p) (get_ancestry-seed_both o)
      ∙ check_target-seed_both u p (get_ancestry s tenant o)
  check_fields-seed_both none p o = refl
  check_fields-seed_both (some u) none o = refl
  check_fields-seed_both (some u) (some p) none = refl

  -- One tenant's grants do not decide in another: whatever a tenant seeds, a grant for any of its users
  -- and an org unit, every access check in the context of another tenant answers as before, where
  -- neither tenant's id has a `:`.
  pub check_route-seed_both :
      (trim : Text → Text) (u p o : Option Text)
      → check_route trim (seed_both s other user g id path) (some tenant) u p o
        ≡ check_route trim s (some tenant) u p o
  unfolding check_route
  check_route-seed_both trim u p o =
      check_fields-seed_both (non_empty trim u) (non_empty trim p) (non_empty trim o)
