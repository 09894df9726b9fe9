-- ===== src/Tenant/Registry.antt =====
-- The memory registry of tenants: services/tenant/src/store.ts and store.memory.ts. The strings that
-- `now().toISOString()` and `generateId()` give are arguments of the call that uses them.
use lms_saas.Prelude.{Bool, Option, none, some, List, Text, text_eq, ◌==◌, find, update_first}

pub data TenantTier : Type 0 where
  pool silo : TenantTier

pub data TenantStatus : Type 0 where
  provisioning active suspended deleted : TenantStatus

pub data TenantKind : Type 0 where
  standalone parent sub : TenantKind

pub record TenantRecord : Type 0 where
  pub id : Text
  pub slug : Text
  pub name : Text
  pub kind : TenantKind
  pub parent_id : Option Text
  pub tier : TenantTier
  pub status : TenantStatus
  pub region : Text
  pub plan_id : Option Text
  pub database_ref : Option Text
  pub subdomain : Text
  pub created_at : Text
  pub updated_at : Text

abbrev pub has_id : Text → TenantRecord → Bool
has_id id t = t.id == id

-- getTenant
unfoldable pub get_tenant : List TenantRecord → Text → Option TenantRecord
get_tenant ts id = find (has_id id) ts

assign_found :
    Option TenantRecord
    → List TenantRecord
    → Text
    → (TenantRecord → TenantRecord)
    → Option TenantRecord × List TenantRecord
assign_found none ts id f = (none, ts)
assign_found (some t) ts id f = (some (f t), update_first (has_id id) f ts)

-- The common body of the three setters: assign to the tenant that `find` returns, or return null.
unfoldable pub assign :
    List TenantRecord
    → Text
    → (TenantRecord → TenantRecord)
    → Option TenantRecord × List TenantRecord
unfolding assign_found
assign ts id f = assign_found (find (has_id id) ts) ts id f

-- setStatus
unfoldable pub set_status :
    List TenantRecord → Text → Text → TenantStatus → Option TenantRecord × List TenantRecord
unfolding assign
set_status ts now id status = assign ts id (λ t. record t { status = status; updated_at = now })

-- setDatabaseRef
unfoldable pub set_database_ref :
    List TenantRecord → Text → Text → Option Text → Option TenantRecord × List TenantRecord
unfolding assign
set_database_ref ts now id ref =
    assign ts id (λ t. record t { database_ref = ref; updated_at = now })

-- setTier
unfoldable pub set_tier :
    List TenantRecord → Text → Text → TenantTier → Option TenantRecord × List TenantRecord
unfolding assign
set_tier ts now id tier = assign ts id (λ t. record t { tier = tier; updated_at = now })
