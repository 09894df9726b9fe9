-- ===== src/Tenant/Delegation/Store.antt =====
-- The delegation store and its routes: services/tenant/src/delegation.ts, delegation.memory.ts and
-- delegation.routes.ts. A field of a request that is not a string is `none`.
use lms_saas.Prelude.{
  Bool, true, false, not, ◌&&◌, ◌||◌, Option, none, some, List, [], ◌∷◌, ◌++◌, Text, text, text_eq,
  option_eq, ◌==◌, find, filter, any, update_first, if◌then◌else◌,
}
use lms_saas.Prelude.{is_uuid}
use lms_saas.Tenant.Delegation.Hierarchy.{TenantNode, is_descendant_of}

pub record DelegationRecord : Type 0 where
  pub id : Text
  pub delegator_tenant_id : Text
  pub scope_tenant_id : Text
  pub delegate_user_id : Text
  pub role : Text
  pub created_at : Text
  pub revoked_at : Option Text

pub record NewDelegationInput : Type 0 where
  pub delegator_tenant_id : Text
  pub scope_tenant_id : Text
  pub delegate_user_id : Text
  pub role : Option Text

pub data CreateDelegationResult : Type 0 where
  delegated_to : DelegationRecord → CreateDelegationResult
  scope_not_descendant unknown_tenant : CreateDelegationResult

-- MemoryDelegationStore
pub record DelegationStore : Type 0 where
  pub rows : List DelegationRecord
  pub nodes : List TenantNode

-- seedTenant
unfoldable pub seed_tenant : DelegationStore → Text → Option Text → DelegationStore
seed_tenant s id parent_id = record s {
  nodes = s.nodes ++ (record { id = id; parent_id = parent_id } ∷ []);
}

abbrev pub is_known : List TenantNode → Text → Bool
is_known nodes id = any (λ n. n.id == id) nodes

abbrev pub is_active : DelegationRecord → Bool
is_active r = r.revoked_at == none

-- An active row that grants the role to the user in the tenant.
abbrev pub grants_role : NewDelegationInput → Text → DelegationRecord → Bool
grants_role i role r =
    (r.scope_tenant_id == i.scope_tenant_id)
    && (r.delegate_user_id == i.delegate_user_id)
    && (r.role == role)
    && is_active r

abbrev pub role_of : Option Text → Text
role_of none = text "school_admin"
role_of (some role) = role

abbrev pub new_delegation : Text → NewDelegationInput → Text → DelegationRecord
new_delegation id i role = record {
  id = id;
  delegator_tenant_id = i.delegator_tenant_id;
  scope_tenant_id = i.scope_tenant_id;
  delegate_user_id = i.delegate_user_id;
  role = role;
  created_at = text "1970-01-01T00:00:00.000Z";
  revoked_at = none;
}

-- The row that exists, or else a new one.
unfoldable pub find_or_push :
    DelegationStore
    → Text
    → NewDelegationInput
    → Text
    → Option DelegationRecord
    → CreateDelegationResult × DelegationStore
find_or_push s id i role (some existing) = (delegated_to existing, s)
find_or_push s id i role none =
    let delegation = new_delegation id i role in
    (delegated_to delegation, record s { rows = s.rows ++ (delegation ∷ []) })

-- createDelegation
unfoldable pub create_delegation :
    DelegationStore → Text → NewDelegationInput → CreateDelegationResult × DelegationStore
unfolding find_or_push
create_delegation s id i =
    if not (is_known s.nodes i.delegator_tenant_id) || not (is_known s.nodes i.scope_tenant_id)
    then (unknown_tenant, s)
    else (if not (is_descendant_of i.scope_tenant_id i.delegator_tenant_id s.nodes)
        then (scope_not_descendant, s)
        else (let role = role_of i.role in
            find_or_push s id i role (find (grants_role i role) s.rows)))

-- listDelegations
unfoldable pub list_delegations : DelegationStore → Text → List DelegationRecord
list_delegations s scope = filter (λ r. (r.scope_tenant_id == scope) && is_active r) s.rows

abbrev pub revoked : DelegationRecord → DelegationRecord
revoked r = record r { revoked_at = some (text "1970-01-01T00:00:00.001Z") }

unfoldable pub revoke_found :
    DelegationStore → Text → Option DelegationRecord → Option DelegationRecord × DelegationStore
revoke_found s id none = (none, s)
revoke_found s id (some row) =
    (some (revoked row), record s { rows = update_first (λ r. r.id == id) revoked s.rows })

-- revokeDelegation
unfoldable pub revoke_delegation :
    DelegationStore → Text → Option DelegationRecord × DelegationStore
unfolding revoke_found
revoke_delegation s id = revoke_found s id (find (λ r. r.id == id) s.rows)

abbrev pub grants : Text → Text → DelegationRecord → Bool
grants scope user r = (r.scope_tenant_id == scope) && (r.delegate_user_id == user) && is_active r

-- hasActiveDelegation
unfoldable pub has_active_delegation : DelegationStore → Text → Text → Bool
has_active_delegation s scope user = any (grants scope user) s.rows

pub data AccessReason : Type 0 where
  own_tenant ancestor_override delegated denied_cross_tenant : AccessReason

pub record AccessDecision : Type 0 where
  pub allowed : Bool
  pub reason : AccessReason

-- tenantAccessDecision
unfoldable pub tenant_access_decision : Text → Text → Bool → Bool → AccessDecision
tenant_access_decision actor_tenant target target_is_descendant has_delegation =
    if actor_tenant == target
    then record { allowed = true; reason = own_tenant }
    else if target_is_descendant
    then record { allowed = true; reason = ancestor_override }
    else if has_delegation
    then record { allowed = true; reason = delegated }
    else record { allowed = false; reason = denied_cross_tenant }

abbrev pub uuid_of : Option Text → Option Text
uuid_of none = none
uuid_of (some s) = if is_uuid s then some s else none

pub data Response {ℓ} (A : Type ℓ) : Type ℓ where
  answer : A → Response A
  bad_request not_found : Response A

-- GET /tenants/:id/access-check, with its two query parameters.
unfoldable pub access_check :
    DelegationStore → Text → Option Text → Option Text → Response AccessDecision
access_check s target actor_tenant actor_user =
    if not (is_uuid target) then bad_request else elim (uuid_of actor_tenant) [
      | none ↦ bad_request
      | some tenant ↦ elim (uuid_of actor_user) [
        | none ↦ bad_request
        | some user ↦ answer (
            tenant_access_decision tenant target (is_descendant_of target tenant s.nodes)
              (has_active_delegation s target user))
      ]
    ]

create_response :
    CreateDelegationResult × DelegationStore → Response DelegationRecord × DelegationStore
create_response (delegated_to d, s) = (answer d, s)
create_response (unknown_tenant, s) = (not_found, s)
create_response (scope_not_descendant, s) = (bad_request, s)

revoke_response :
    Option DelegationRecord × DelegationStore → Response DelegationRecord × DelegationStore
revoke_response (none, s) = (not_found, s)
revoke_response (some d, s) = (answer d, s)

-- POST /tenants/:id/delegations/:did/revoke
unfoldable pub revoke_route :
    DelegationStore → Text → Text → Response DelegationRecord × DelegationStore
unfolding revoke_response
revoke_route s scope did =
    if not (is_uuid did) then (bad_request, s) else revoke_response (revoke_delegation s did)

-- GET /tenants/:id/delegations
unfoldable pub list_route : DelegationStore → Text → Response (List DelegationRecord)
list_route s scope = if not (is_uuid scope) then bad_request else answer (list_delegations s scope)

module _ (trim : Text → Text) where
  abbrev trimmed_role : Option Text → Option Text
  trimmed_role none = none
  trimmed_role (some role) = if trim role == [] then none else some (trim role)

  -- POST /tenants/:id/delegations
  unfoldable pub create_route :
      DelegationStore
      → Text
      → Text
      → Option Text
      → Option Text
      → Option Text
      → Response DelegationRecord × DelegationStore
  unfolding create_response
  create_route s id scope delegator delegate_user role =
      if not (is_uuid scope) then (bad_request, s) else elim (uuid_of delegator) [
        | none ↦ (bad_request, s)
        | some tenant ↦ elim (uuid_of delegate_user) [
          | none ↦ (bad_request, s)
          | some user ↦ create_response (
              create_delegation s id (record {
                delegator_tenant_id = tenant;
                scope_tenant_id = scope;
                delegate_user_id = user;
                role = trimmed_role role;
              }))
        ]
      ]
