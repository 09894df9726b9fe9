-- ===== src/Identity/Authz.antt =====
-- Deny-by-default permission checks at an org unit: services/identity/src/authz.ts, authz.memory.ts
-- and authz.routes.ts. A query parameter that is absent is `none`, and so is a tenant context whose
-- resolution throws.
pub mod Effective
pub mod Isolation
use lms_saas.Prelude.{
  Bool, true, false, not, ◌&&◌, ◌||◌, Option, none, some, List, [], ◌∷◌, ◌++◌, Text, text, text_eq,
  ◌==◌, find, any, if◌then◌else◌, Map, lookup, insert,
}

pub record Grant : Type 0 where
  pub role_id : Text
  pub role_name : Text
  pub permission : Text
  pub org_unit_id : Text
  pub cascade : Bool

pub record OrgUnitAncestry : Type 0 where
  pub id : Text
  pub path : List Text

-- isGrantApplicable, on the two fields that it reads.
abbrev pub is_scope_applicable : Text → Bool → OrgUnitAncestry → Bool
is_scope_applicable org_unit_id cascade target =
    if org_unit_id == target.id
    then true
    else (cascade && any (λ id. id == org_unit_id) target.path)

-- isGrantApplicable
abbrev pub is_grant_applicable : Grant → OrgUnitAncestry → Bool
is_grant_applicable g target = is_scope_applicable g.org_unit_id g.cascade target

pub data AccessReason : Type 0 where
  granted deny_by_default : AccessReason

pub record AccessDecision : Type 0 where
  pub allowed : Bool
  pub reason : AccessReason
  pub via : Option Grant

abbrev pub decide : Option Grant → AccessDecision
decide none = record { allowed = false; reason = deny_by_default; via = none }
decide (some g) = record { allowed = true; reason = granted; via = some g }

abbrev pub grants_access : Text → OrgUnitAncestry → Grant → Bool
grants_access permission target g = (g.permission == permission) && is_grant_applicable g target

-- checkAccess
unfoldable pub check_access : List Grant → Text → OrgUnitAncestry → AccessDecision
check_access grants permission target = decide (find (grants_access permission target) grants)

pub record EffectivePermission : Type 0 where
  pub permission : Text
  pub org_unit_id : Text
  pub cascade : Bool
  pub role_name : Text

abbrev pub bool_text : Bool → Text
bool_text true = text "true"
bool_text false = text "false"

abbrev pub grant_key : Grant → Text
grant_key g = g.permission ++ (text "@" ++ (g.org_unit_id ++ (text ":" ++ bool_text g.cascade)))

abbrev pub effective_of : Grant → EffectivePermission
effective_of g = record {
  permission = g.permission;
  org_unit_id = g.org_unit_id;
  cascade = g.cascade;
  role_name = g.role_name;
}

-- The loop of `effectivePermissions`, from the keys seen.
abbrev pub effective_from : List Text → List Grant → List EffectivePermission
effective_from seen [] = []
effective_from seen (g ∷ gs) =
    if any (λ k. k == grant_key g) seen
    then effective_from seen gs
    else effective_of g ∷ effective_from (grant_key g ∷ seen) gs

-- effectivePermissions
unfoldable pub effective_permissions : List Grant → List EffectivePermission
effective_permissions grants = effective_from [] grants

-- MemoryAuthzStore
pub record AuthzStore : Type 0 where
  pub grants : Map Text (List Grant)
  pub ancestry : Map Text OrgUnitAncestry

-- The keys of both maps: `${tenantId}:${userId}` and `${tenantId}:${ouId}`.
abbrev pub key_of : Text → Text → Text
key_of tenant id = tenant ++ (text ":" ++ id)

abbrev or_empty : Option (List Grant) → List Grant
or_empty none = []
or_empty (some gs) = gs

-- listGrants
unfoldable pub list_grants : AuthzStore → Text → Text → List Grant
list_grants s tenant user = or_empty (lookup (key_of tenant user) s.grants)

-- seedGrant
unfoldable pub seed_grant : AuthzStore → Text → Text → Grant → AuthzStore
seed_grant s tenant user g =
    let rest = or_empty (lookup (key_of tenant user) s.grants) in
    record s { grants = insert (key_of tenant user) (rest ++ (g ∷ [])) s.grants }

-- seedOrgUnit
unfoldable pub seed_org_unit : AuthzStore → Text → Text → List Text → AuthzStore
seed_org_unit s tenant id path = record s {
  ancestry = insert (key_of tenant id) (record { id = id; path = path }) s.ancestry;
}

-- getAncestry
unfoldable pub get_ancestry : AuthzStore → Text → Text → Option OrgUnitAncestry
get_ancestry s tenant org_unit_id = lookup (key_of tenant org_unit_id) s.ancestry

pub data Reply {ℓ} (A : Type ℓ) : Type ℓ where
  ok : A → Reply A
  tenant_required invalid_request not_found : Reply A

-- GET /users/:id/effective-permissions
unfoldable pub effective_route : AuthzStore → Option Text → Text → Reply (List EffectivePermission)
effective_route s none user = tenant_required
effective_route s (some tenant) user = ok (effective_permissions (list_grants s tenant user))

abbrev pub check_target :
    AuthzStore → Text → Text → Text → Option OrgUnitAncestry → Reply AccessDecision
check_target s tenant user permission none = not_found
check_target s tenant user permission (some target) =
    ok (check_access (list_grants s tenant user) permission target)

abbrev pub check_fields :
    AuthzStore → Text → Option Text → Option Text → Option Text → Reply AccessDecision
check_fields s tenant (some u) (some p) (some o) =
    check_target s tenant u p (get_ancestry s tenant o)
check_fields s tenant _ _ _ = invalid_request

module _ (trim : Text → Text) where
  -- isNonEmptyString
  abbrev pub non_empty : Option Text → Option Text
  non_empty none = none
  non_empty (some s) = if trim s == [] then none else some s

  -- GET /authz/check, with its three query parameters.
  unfoldable pub check_route :
      AuthzStore → Option Text → Option Text → Option Text → Option Text → Reply AccessDecision
  check_route s none user permission org_unit_id = tenant_required
  check_route s (some tenant) user permission org_unit_id =
      check_fields s tenant (non_empty user) (non_empty permission) (non_empty org_unit_id)
