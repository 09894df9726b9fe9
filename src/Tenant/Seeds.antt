-- ===== src/Tenant/Seeds.antt =====
-- The demo tenant of services/tenant/src/store.memory.ts.
use lms_saas.Prelude.{none, [], ◌∷◌, ◌++◌, text}
use lms_saas.Tenant.Registry.{TenantRecord, pool, active, standalone}
use lms_saas.Tenant.Provisioning.{TenantStore, subdomain_for}

-- seed
abbrev pub seed : TenantStore → TenantRecord → TenantStore
seed s t = record s { tenants = s.tenants ++ (t ∷ []) }

abbrev demo_tenant : TenantRecord
demo_tenant = record {
  id = text "11111111-1111-1111-1111-111111111111";
  slug = text "demo";
  name = text "Demo Academy";
  kind = standalone;
  parent_id = none;
  tier = pool;
  status = active;
  region = text "us-east";
  plan_id = none;
  database_ref = none;
  subdomain = subdomain_for (text "demo");
  created_at = text "2026-01-01T00:00:00.000Z";
  updated_at = text "2026-01-01T00:00:00.000Z";
}

-- createSeededMemoryStore
abbrev pub seeded_registry : TenantStore
seeded_registry = seed (record { tenants = []; outbox = [] }) demo_tenant
