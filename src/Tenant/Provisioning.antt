-- ===== src/Tenant/Provisioning.antt =====
-- Provisioning a tenant and reading the registry: the rest of services/tenant/src/store.ts and
-- store.memory.ts. `trim` and `toLowerCase` rest on Unicode's tables and are parameters.
pub mod Slugs
pub mod Subtree
use lms_saas.Prelude.{
  ℕ, zero, suc, Bool, true, false, not, ◌&&◌, ◌||◌, Option, none, some, List, [], ◌∷◌, ◌++◌, Text,
  text, text_eq, option_eq, ◌==◌, find, filter, any, update_first, starts_with, length, leb, nat_eq,
  if◌then◌else◌,
}
use lms_saas.Tenant.Registry.{
  TenantRecord, TenantTier, pool, TenantStatus, active, TenantKind, standalone, parent, sub, has_id,
}

pub record ProvisionTenantInput : Type 0 where
  pub slug : Text
  pub name : Text
  pub region : Option Text
  pub plan : Option Text
  pub parent_tenant_id : Option Text

-- The payload of a `tenant.provisioned` event.
pub record Provisioned : Type 0 where
  pub slug : Text
  pub name : Text
  pub region : Text
  pub tier : TenantTier
  pub subdomain : Text
  pub plan_id : Option Text

pub record OutboxEvent : Type 0 where
  pub tenant_id : Text
  pub event_type : Text
  pub payload : Provisioned

pub data ProvisionTenantResult : Type 0 where
  provisioned : TenantRecord → ProvisionTenantResult
  slug_taken unknown_plan unknown_parent : ProvisionTenantResult

-- The arrays of the memory store.
pub record TenantStore : Type 0 where
  pub tenants : List TenantRecord
  pub outbox : List OutboxEvent

-- subdomainFor
abbrev pub subdomain_for : Text → Text
subdomain_for slug = slug ++ text ".lms.app"

abbrev known_plan_codes : List Text
known_plan_codes = text "core" ∷ text "performance_plus" ∷ []

abbrev is_label_unit : ℕ → Bool
is_label_unit u = (leb 97 u && leb u 122) || (leb 48 u && leb u 57)

-- The rest of `[a-z0-9]+(?:-[a-z0-9]+)*`; the flag says whether a group has begun.
abbrev matches_label : Bool → Text → Bool
matches_label begun [] = begun
matches_label true (u ∷ s) =
    if is_label_unit u then matches_label true s else nat_eq u 45 && matches_label false s
matches_label false (u ∷ s) = is_label_unit u && matches_label true s

-- The parent that is named, unless it is unknown.
abbrev parent_of : List TenantRecord → Option Text → Option (Option TenantRecord)
parent_of ts none = some none
parent_of ts (some id) = elim (find (has_id id) ts) [ none ↦ none | some t ↦ some (some t) ]

-- The plan that is named, unless it is unknown, or else the parent's.
abbrev plan_of : Option Text → Option TenantRecord → Option (Option Text)
plan_of (some plan) p =
    if any (λ code. code == plan) known_plan_codes then some (some plan) else none
plan_of none none = some none
plan_of none (some p) = some p.plan_id

abbrev region_of : Option Text → Option TenantRecord → Text
region_of (some region) p = region
region_of none (some p) = p.region
region_of none none = text "us-east"

abbrev kind_of : Option TenantRecord → TenantKind
kind_of none = standalone
kind_of (some p) = sub

abbrev id_of : Option TenantRecord → Option Text
id_of none = none
id_of (some p) = some p.id

abbrev is_standalone : TenantKind → Bool
is_standalone standalone = true
is_standalone _ = false

abbrev pub new_tenant :
    Text → Text → Text → ProvisionTenantInput → Option TenantRecord → Option Text → TenantRecord
new_tenant id now slug i p plan = record {
  id = id;
  slug = slug;
  name = i.name;
  kind = kind_of p;
  parent_id = id_of p;
  tier = pool;
  status = active;
  region = region_of i.region p;
  plan_id = plan;
  database_ref = none;
  subdomain = subdomain_for slug;
  created_at = now;
  updated_at = now;
}

abbrev pub promoted : Text → TenantRecord → TenantRecord
promoted now t = if is_standalone t.kind then record t { kind = parent; updated_at = now } else t

-- A standalone parent becomes a district.
abbrev pub with_district : Text → Option TenantRecord → List TenantRecord → List TenantRecord
with_district now none ts = ts
with_district now (some p) ts = update_first (has_id p.id) (promoted now) ts

abbrev pub provisioned_event : TenantRecord → OutboxEvent
provisioned_event t = record {
  tenant_id = t.id;
  event_type = text "tenant.provisioned";
  payload = record {
    slug = t.slug;
    name = t.name;
    region = t.region;
    tier = t.tier;
    subdomain = t.subdomain;
    plan_id = t.plan_id;
  };
}

-- The writes of `provisionTenant`, once parent and plan are known.
unfoldable pub insert_tenant :
    TenantStore → Text → Option TenantRecord → TenantRecord → ProvisionTenantResult × TenantStore
insert_tenant s now p t = (
  provisioned t,
  record {
    tenants = with_district now p (s.tenants ++ (t ∷ []));
    outbox = s.outbox ++ (provisioned_event t ∷ []);
  },
)

unfoldable pub provision_plan :
    TenantStore
    → Text
    → Text
    → Text
    → ProvisionTenantInput
    → Option TenantRecord
    → Option (Option Text)
    → ProvisionTenantResult × TenantStore
unfolding insert_tenant
provision_plan s id now slug i p none = (unknown_plan, s)
provision_plan s id now slug i p (some plan) =
    insert_tenant s now p (new_tenant id now slug i p plan)

unfoldable pub provision_parent :
    TenantStore
    → Text
    → Text
    → Text
    → ProvisionTenantInput
    → Option (Option TenantRecord)
    → ProvisionTenantResult × TenantStore
unfolding provision_plan
provision_parent s id now slug i none = (unknown_parent, s)
provision_parent s id now slug i (some p) = provision_plan s id now slug i p (plan_of i.plan p)

-- The loop body of `listSubtree`: a tenant below one that is marked is marked.
abbrev pub is_below : List Text → Option Text → Bool
is_below ids none = false
is_below ids (some p) = not (p == []) && any (λ id. id == p) ids

abbrev pub mark_one : TenantRecord → List Text × Bool → List Text × Bool
mark_one t (ids, grew) =
    if is_below ids t.parent_id && not (any (λ id. id == t.id) ids)
    then (ids ++ (t.id ∷ []), true)
    else (ids, grew)

abbrev pub mark : List TenantRecord → List Text × Bool → List Text × Bool
mark [] marks = marks
mark (t ∷ ts) marks = mark ts (mark_one t marks)

-- The `while` loop, with the rounds that `guard` leaves.
abbrev pub mark_all : ℕ → List TenantRecord → List Text → List Text
mark_all zero ts ids = ids
mark_all (suc rounds) ts ids =
    let marks = mark ts (ids, false) in
    let rest = mark_all rounds ts marks.0 in if marks.1 then rest else marks.0

-- listSubtree
unfoldable pub list_subtree : List TenantRecord → Text → List TenantRecord
list_subtree ts root =
    let ids = mark_all 64 ts (root ∷ []) in filter (λ t. any (λ id. id == t.id) ids) ts

module _ (trim to_lower_case : Text → Text) where
  -- normalizeSlug
  unfoldable pub normalize_slug : Text → Text
  normalize_slug slug = to_lower_case (trim slug)

  -- isValidSlug, on a string
  unfoldable pub is_valid_slug : Text → Bool
  unfolding normalize_slug
  is_valid_slug slug =
      let normalized = normalize_slug slug in
      not (nat_eq (length normalized) 0)
      && leb (length normalized) 63
      && matches_label false normalized

  abbrev pub has_slug : Text → TenantRecord → Bool
  has_slug slug t = normalize_slug t.slug == slug

  -- provisionTenant
  unfoldable pub provision_tenant :
      TenantStore → Text → Text → ProvisionTenantInput → ProvisionTenantResult × TenantStore
  unfolding provision_parent
  provision_tenant s id now i =
      let slug = normalize_slug i.slug in
      if any (has_slug slug) s.tenants
      then (slug_taken, s)
      else provision_parent s id now slug i (parent_of s.tenants i.parent_tenant_id)

  -- getTenantBySlug
  unfoldable pub get_tenant_by_slug : List TenantRecord → Text → Option TenantRecord
  get_tenant_by_slug ts slug = find (has_slug (normalize_slug slug)) ts

  -- `s.includes(q)`
  abbrev includes : Text → Text → Bool
  includes q [] = starts_with q []
  includes q (u ∷ s) = starts_with q (u ∷ s) || includes q s

  abbrev matches_query : Option Text → TenantRecord → Bool
  matches_query none t = true
  matches_query (some q) t =
      let wanted = to_lower_case (trim q) in
      (wanted == [])
      || includes wanted (to_lower_case t.name)
      || includes wanted (to_lower_case t.slug)

  -- listChildren
  unfoldable pub list_children : List TenantRecord → Text → Option Text → List TenantRecord
  list_children ts parent_id q =
      filter (λ t. (t.parent_id == some parent_id) && matches_query q t) ts
