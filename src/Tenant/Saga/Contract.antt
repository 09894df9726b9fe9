-- ===== src/Tenant/Saga/Contract.antt =====
-- What the saga relies on in its stores and its port: every call applies or throws, and a call that
-- throws has changed nothing that the saga can see. Both stores of the service are meant so.
use lms_saas.Prelude.{◌≡◌, Option, none, some, Text, Bool, true}
use lms_saas.Tenant.Registry.{TenantRecord, TenantTier, TenantStatus}
use lms_saas.Tenant.Runs.{SagaStatus, pending, SagaRun, StartRunInput, StepPatch, MarkOptions}
use lms_saas.Tenant.Saga.{Result, returned, thrown, SiloTarget, SagaDeps}

-- What the data plane reads of a tenant's row.
pub record Catalog : Type 0 where
  pub tier : TenantTier
  pub status : TenantStatus
  pub database_ref : Option Text

abbrev pub catalog_of : TenantRecord → Catalog
catalog_of t = record { tier = t.tier; status = t.status; database_ref = t.database_ref }

-- The world after a call shows one catalog row if the call returned, another if it threw.
abbrev pub Shows : {W A : Type 0} → (W → Option Catalog) → Catalog → Catalog → Result A × W → Type 0
Shows view c c' (returned a, w) = view w ≡ some c
Shows view c c' (thrown e, w) = view w ≡ some c'

module _ {W : Type 0} (d : SagaDeps W) (tenant : Text) (view : W → Option Catalog) where
  open d use {port, store, saga_store}

  -- The registry: `view` is the tenant's row.
  pub record IsCatalog : Type 0 where
    pub get_returns :
        (w : W) (t : TenantRecord)
        → (store.get_tenant tenant w).0 ≡ returned (some t)
        → view w ≡ some (catalog_of t)
    pub get_keeps : (w : W) → view (store.get_tenant tenant w).1 ≡ view w
    pub tier_set :
        (tier : TenantTier) (w : W) (c : Catalog)
        → view w ≡ some c
        → Shows view (record c { tier = tier }) c (store.set_tier tenant tier w)
    pub ref_set :
        (ref : Option Text) (w : W) (c : Catalog)
        → view w ≡ some c
        → Shows view (record c { database_ref = ref }) c (store.set_database_ref tenant ref w)

  -- The run rows and the infrastructure leave the registry alone.
  pub record IsApart : Type 0 where
    pub start_keeps : (i : StartRunInput) (w : W) → view (saga_store.start_run i w).1 ≡ view w
    pub step_keeps :
        (id : Text) (p : StepPatch) (w : W) → view (saga_store.mark_step id p w).1 ≡ view w
    pub mark_keeps :
        (id : Text) (s : SagaStatus) (o : MarkOptions) (w : W)
        → view (saga_store.mark_status id s o w).1 ≡ view w
    pub run_keeps : (id : Text) (w : W) → view (saga_store.get_run id w).1 ≡ view w
    pub key_keeps : (key : Text) (w : W) → view (saga_store.get_run_by_key key w).1 ≡ view w
    pub project_keeps :
        (region : Text) (w : W) → view (port.create_project tenant region w).1 ≡ view w
    pub branch_keeps :
        (project : Text) (w : W) → view (port.create_branch tenant project w).1 ≡ view w
    pub migrations_keep : (t : SiloTarget) (w : W) → view (port.run_migrations t w).1 ≡ view w
    pub data_keeps : (t : SiloTarget) (w : W) → view (port.copy_tenant_data tenant t w).1 ≡ view w
    pub deprovision_keeps :
        (t : Option SiloTarget) (w : W) → view (port.deprovision tenant t w).1 ≡ view w

module _ {W : Type 0} (d : SagaDeps W) (tenant : Text) (status_of : Text → W → Option SagaStatus)
    (is_free : Text → W → Bool) where
  open d use {store, saga_store}

  -- The run store: a free key gets a new run; a mark that finds its run sets the status, and a lookup
  -- shows it.
  pub record IsRunStore : Type 0 where
    pub key_freed :
        (key : Text) (w : W)
        → (saga_store.get_run_by_key key w).0 ≡ returned none
        → is_free key (saga_store.get_run_by_key key w).1 ≡ true
    pub key_stays_free :
        (key : Text) (w : W)
        → is_free key w ≡ true
        → is_free key (store.get_tenant tenant w).1 ≡ true
    pub started :
        (i : StartRunInput) (w : W) (r : SagaRun)
        → is_free i.idempotency_key w ≡ true
        → (saga_store.start_run i w).0 ≡ returned r
        → (r.status ≡ pending) × (r.prev_database_ref ≡ i.prev_database_ref)
    pub marked_status :
        (id : Text) (s : SagaStatus) (o : MarkOptions) (w : W) (r : SagaRun)
        → (saga_store.mark_status id s o w).0 ≡ returned (some r)
        → (r.status ≡ s) × (status_of id (saga_store.mark_status id s o w).1 ≡ some s)
    pub marked_nothing :
        (id : Text) (s : SagaStatus) (o : MarkOptions) (w : W)
        → (saga_store.mark_status id s o w).0 ≡ returned none
        → status_of id (saga_store.mark_status id s o w).1 ≡ none
    pub run_found :
        (id : Text) (w : W) (r : SagaRun)
        → (saga_store.get_run id w).0 ≡ returned (some r)
        → status_of id w ≡ some r.status
