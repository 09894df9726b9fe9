-- ===== src/Tenant/Delegation/Scope.antt =====
-- What the calls of services/tenant/src/delegation.memory.ts keep of the store, and whom
-- services/tenant/src/delegation.routes.ts lets in.
use lms_saas.Prelude.{
  ℕ, zero, suc, ◌<◌, ◌≡◌, ◌≢◌, sym, ap, subst, ◌∙◌, ◌⊎◌, inl, inr, Bool-cases, Bool, true, false,
  not, ◌||◌, Option, none, some, List, [], ◌∷◌, ◌++◌, Text, text_eq, option_eq, ◌==◌, eq_iff, find,
  any, All, All-append, All-map, update_first-All, arith,
}
use lms_saas.Tenant.Delegation.Hierarchy.{
  TenantNode, InNodes, HasUniqueIds, Ascends, is_descendant_of, is_descendant_of_iff,
}
use lms_saas.Tenant.Delegation.Store.{
  DelegationStore, DelegationRecord, NewDelegationInput, seed_tenant, is_known, create_delegation,
  find_or_push, new_delegation, role_of, grants_role, revoke_delegation, revoke_found, revoked,
  grants, has_active_delegation, AccessDecision, tenant_access_decision, access_check, answer,
}

-- `a` lies at least one and at most 64 parent links above `x`.
abbrev pub IsAbove : List TenantNode → Text → Text → Type 0
IsAbove nodes a x = (n : ℕ) × (n < 64) × Ascends nodes x (suc n) a

-- The stores that calls reach from the empty one. A tenant is seeded once.
pub data IsReached : DelegationStore → Type 0 where
  start : IsReached (record { rows = []; nodes = [] })
  seeded :
      (s : DelegationStore) (id : Text) (parent_id : Option Text)
      → is_known s.nodes id ≡ false
      → IsReached s
      → IsReached (seed_tenant s id parent_id)
  created :
      (s : DelegationStore) (id : Text) (i : NewDelegationInput)
      → IsReached s
      → IsReached (create_delegation s id i).1
  withdrawn : (s : DelegationStore) (id : Text) → IsReached s → IsReached (revoke_delegation s id).1

abbrev pub IsScoped : List TenantNode → DelegationRecord → Type 0
IsScoped nodes r = IsAbove nodes r.delegator_tenant_id r.scope_tenant_id

InNodes-append :
    (k : TenantNode) (front back : List TenantNode) → InNodes k front → InNodes k (front ++ back)
InNodes-append k [] back member = absurd member
InNodes-append k (n ∷ front) back (inl here) = inl here
InNodes-append k (n ∷ front) back (inr later) = inr (InNodes-append k front back later)

Ascends-append :
    (nodes more : List TenantNode) (x : Text) (n : ℕ) (a : Text)
    → Ascends nodes x n a
    → Ascends (nodes ++ more) x n a
Ascends-append nodes more x zero a e = e
Ascends-append nodes more x (suc n) a (k, member, e, (p, up, real, chain)) =
    (k, InNodes-append k nodes more member, e, (p, up, real, Ascends-append nodes more p n a chain))

HasUniqueIds-append_one :
    (nodes : List TenantNode) (k : TenantNode)
    → is_known nodes k.id ≡ false
    → HasUniqueIds nodes
    → HasUniqueIds (nodes ++ (k ∷ []))
HasUniqueIds-append_one [] k fresh u = (tt, tt)
HasUniqueIds-append_one (n ∷ nodes) k fresh u =
    let apart : k.id ≢ n.id = ground (arith, eq_iff n.id k.id) in
    (
      All-append (λ j. j.id ≢ n.id) nodes (k ∷ []) u.0 (apart, tt),
      HasUniqueIds-append_one nodes k (ground arith) u.1,
    )

-- The invariant.
abbrev pub IsSound : DelegationStore → Type 0
IsSound s = HasUniqueIds s.nodes × All (IsScoped s.nodes) s.rows

find_or_push-IsSound :
    (s : DelegationStore) (id : Text) (i : NewDelegationInput) (role : Text)
    (existing : Option DelegationRecord)
    → IsAbove s.nodes i.delegator_tenant_id i.scope_tenant_id
    → IsSound s
    → IsSound (find_or_push s id i role existing).1
unfolding find_or_push
find_or_push-IsSound s id i role (some r) above sound = sound
find_or_push-IsSound s id i role none above sound = (
  sound.0,
  All-append (IsScoped s.nodes) s.rows (new_delegation id i role ∷ []) sound.1 (above, tt),
)

create_delegation-IsSound :
    (s : DelegationStore) (id : Text) (i : NewDelegationInput)
    → IsSound s
    → IsSound (create_delegation s id i).1
unfolding create_delegation
create_delegation-IsSound s id i sound =
    elim (Bool-cases
      (not (is_known s.nodes i.delegator_tenant_id) || not (is_known s.nodes i.scope_tenant_id))) [
        | inl unknown ↦ rw unknown sound
        | inr known ↦
            elim (Bool-cases (is_descendant_of i.scope_tenant_id i.delegator_tenant_id s.nodes)) [
              | inl below ↦
                  let above =
                    (is_descendant_of_iff s.nodes i.scope_tenant_id i.delegator_tenant_id sound.0).0
                      below in
                  rw known (
                    rw below (
                      find_or_push-IsSound s id i (role_of i.role)
                        (find (grants_role i (role_of i.role)) s.rows) above sound))
              | inr apart ↦ rw known (rw apart sound)
            ]
      ]

revoke_found-IsSound :
    (s : DelegationStore) (id : Text) (row : Option DelegationRecord)
    → IsSound s
    → IsSound (revoke_found s id row).1
unfolding revoke_found
revoke_found-IsSound s id none sound = sound
revoke_found-IsSound s id (some row) sound = (
  sound.0,
  update_first-All (IsScoped s.nodes) (λ r. r.id == id) revoked s.rows (λ r scoped here. scoped)
      sound.1,
)

-- No call delegates a tenant that is not below the delegator: in every store that the calls reach,
-- node ids are unique and each delegation's scope lies at least one and at most 64 parent links below
-- its delegator.
pub IsReached-IsSound : (s : DelegationStore) → IsReached s → IsSound s
unfolding seed_tenant revoke_delegation
IsReached-IsSound s start = (tt, tt)
IsReached-IsSound _ (seeded s id parent_id fresh reached) =
    let sound = IsReached-IsSound s reached in
    let k : TenantNode = record { id = id; parent_id = parent_id } in
    (
      HasUniqueIds-append_one s.nodes k fresh sound.0,
      All-map (IsScoped s.nodes) (IsScoped (s.nodes ++ (k ∷ []))) s.rows
          (λ r (n, le, chain). (
            n,
            le,
            Ascends-append s.nodes (k ∷ []) r.scope_tenant_id (suc n) r.delegator_tenant_id chain,
          ))
          sound.1,
    )
IsReached-IsSound _ (created s id i reached) =
    create_delegation-IsSound s id i (IsReached-IsSound s reached)
IsReached-IsSound _ (withdrawn s id reached) =
    revoke_found-IsSound s id (find (λ r. r.id == id) s.rows) (IsReached-IsSound s reached)

-- An active delegation of the tenant to the user, by a tenant above it.
abbrev pub IsDelegated : List TenantNode → List DelegationRecord → Text → Text → Type 0
IsDelegated nodes [] scope user = ⊥
IsDelegated nodes (r ∷ rs) scope user =
    ((r.scope_tenant_id ≡ scope)
      × (r.delegate_user_id ≡ user)
      × (r.revoked_at ≡ none)
      × IsAbove nodes r.delegator_tenant_id scope)
    ⊎ IsDelegated nodes rs scope user

any-IsDelegated :
    (nodes : List TenantNode) (rs : List DelegationRecord) (scope user : Text)
    → All (IsScoped nodes) rs
    → any (grants scope user) rs ≡ true
    → IsDelegated nodes rs scope user
any-IsDelegated nodes [] scope user all h = absurd (ground arith)
any-IsDelegated nodes (r ∷ rs) scope user all h = elim (Bool-cases (grants scope user r)) [
  | inl here ↦
      let place : r.scope_tenant_id ≡ scope = ground (arith, eq_iff r.scope_tenant_id scope) in
      let who : r.delegate_user_id ≡ user = ground (arith, eq_iff r.delegate_user_id user) in
      let live : r.revoked_at ≡ none = ground (arith, eq_iff r.revoked_at none) in
      inl (place, who, live, subst (λ x. IsAbove nodes r.delegator_tenant_id x) place all.0)
  | inr there ↦ inr (any-IsDelegated nodes rs scope user all.1 (rw there at h))
]

decision_cases :
    (tenant target : Text) (below held : Bool)
    → (tenant_access_decision tenant target below held).allowed ≡ true
    → (tenant ≡ target) ⊎ ((below ≡ true) ⊎ (held ≡ true))
unfolding tenant_access_decision
decision_cases tenant target below held h = ground (arith, eq_iff tenant target)

access_check_cases :
    (s : DelegationStore) (target tenant user : Text) (d : AccessDecision)
    → access_check s target (some tenant) (some user) ≡ answer d
    → d
      ≡ tenant_access_decision tenant target
          (is_descendant_of target tenant s.nodes)
          (has_active_delegation s target user)
unfolding access_check
access_check_cases s target tenant user d h = ground arith

-- Nobody is let into a tenant without a reason: in a store that the calls reach, an access check that
-- allows the user of a tenant into a target tenant has found that the two are one tenant, that the
-- user's tenant lies above the target, or that a delegation of exactly that target to exactly that
-- user, by a tenant above the target, is active.
pub access_check-IsAbove :
    (s : DelegationStore) (target tenant user : Text) (d : AccessDecision)
    → IsReached s
    → access_check s target (some tenant) (some user) ≡ answer d
    → d.allowed ≡ true
    → (tenant ≡ target) ⊎ (IsAbove s.nodes tenant target ⊎ IsDelegated s.nodes s.rows target user)
unfolding has_active_delegation
access_check-IsAbove s target tenant user d reached h ok =
    let sound = IsReached-IsSound s reached in
    let same = access_check_cases s target tenant user d h in
    elim (decision_cases tenant target (is_descendant_of target tenant s.nodes)
      (has_active_delegation s target user) (sym (ap (λ e. e.allowed) same) ∙ ok)) [
        | inl own ↦ inl own
        | inr (inl below) ↦ inr (inl ((is_descendant_of_iff s.nodes target tenant sound.0).0 below))
        | inr (inr held) ↦ inr (inr (any-IsDelegated s.nodes s.rows target user sound.1 held))
      ]
