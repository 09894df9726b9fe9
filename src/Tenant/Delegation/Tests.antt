-- ===== src/Tenant/Delegation/Tests.antt =====
-- A district, its school, and a user of another tenant to whom the school is delegated.
use lms_saas.Prelude.{
  ℕ, ◌<◌, ◌≡◌, refl, ◌↔◌, ◌⊎◌, true, none, some, [], ◌∷◌, List, Text, text, text_eq, eq_iff, ◌≢◌,
  arith, suc,
}
use lms_saas.Tenant.Delegation.Hierarchy.{
  TenantNode, Ascends, is_descendant_of, is_descendant_of_iff,
}
use lms_saas.Tenant.Delegation.Store.{
  DelegationStore, seed_tenant, create_delegation, find_or_push, has_active_delegation,
  AccessDecision, delegated, tenant_access_decision, access_check, answer,
}
use lms_saas.Tenant.Delegation.Scope.{
  IsReached, start, seeded, created, IsAbove, IsDelegated, access_check-IsAbove,
}

abbrev district : Text
district = text "11111111-1111-1111-1111-111111111111"

abbrev school : Text
school = text "22222222-2222-2222-2222-222222222222"

abbrev other : Text
other = text "33333333-3333-3333-3333-333333333333"

abbrev ada : Text
ada = text "44444444-4444-4444-4444-444444444444"

abbrev nodes : List TenantNode
nodes =
    record { id = district; parent_id = none }
    ∷ record { id = school; parent_id = some district }
    ∷ []

school_ne_district : school ≢ district
school_ne_district e = absurd (ground (arith, (eq_iff school district).1 e))

is_descendant_of_iff_example :
    (is_descendant_of school district nodes ≡ true)
    ↔ ((n : ℕ) × (n < 64) × Ascends nodes school (suc n) district)
is_descendant_of_iff_example =
    is_descendant_of_iff nodes school district ((school_ne_district, tt), (tt, tt))

abbrev empty : DelegationStore
empty = record { rows = []; nodes = [] }

abbrev planted : DelegationStore
planted = seed_tenant (seed_tenant empty district none) school (some district)

abbrev store : DelegationStore
store =
    (create_delegation planted (text "d1") (record {
      delegator_tenant_id = district;
      scope_tenant_id = school;
      delegate_user_id = ada;
      role = none;
    })).1

abbrev decision : AccessDecision
decision = record { allowed = true; reason = delegated }

planted-IsReached : IsReached planted
unfolding seed_tenant
planted-IsReached =
    seeded (seed_tenant empty district none) school (some district) refl
      (seeded empty district none refl start)

check_answers : access_check store school (some other) (some ada) ≡ answer decision
unfolding seed_tenant create_delegation find_or_push is_descendant_of has_active_delegation
    tenant_access_decision access_check
check_answers = refl

access_check-IsAbove_example :
    (other ≡ school)
    ⊎ (IsAbove store.nodes other school ⊎ IsDelegated store.nodes store.rows school ada)
access_check-IsAbove_example =
    access_check-IsAbove store school other ada decision
      (created planted (text "d1") _ planted-IsReached) check_answers refl
