-- ===== src/Tenant/Saga/Memory.antt =====
-- The saga over the two memory stores (services/tenant/src/store.memory.ts, silo.saga.memory.ts) and
-- any port. `ids` and `clock` are what the injected `generateId` and `now` return, call by call.
pub mod Contracts
pub mod Answers
use lms_saas.Prelude.{
  ℕ, suc, Bool, true, false, not, Option, none, some, List, Text, find, text_eq, ◌==◌,
}
use lms_saas.Tenant.Registry
use lms_saas.Tenant.Registry.{TenantRecord}
use lms_saas.Tenant.Runs
use lms_saas.Tenant.Runs.{SagaRun, SagaStatus, has_run_id, has_key}
use lms_saas.Tenant.Saga.{Result, returned, Action, SiloPort, TenantStore, SagaStateStore, SagaDeps}
use lms_saas.Tenant.Saga.Contract.{Catalog, catalog_of}

-- Both stores' arrays, the state behind the port, and how often the id source and the clock were read.
pub record World (I : Type 0) : Type 0 where
  pub tenants : List TenantRecord
  pub runs : List SagaRun
  pub infra : I
  pub minted : ℕ
  pub read : ℕ

-- A call of the port.
abbrev pub on_infra : {I A : Type 0} → Action I A → Action (World I) A
on_infra a w = let r = a w.infra in (r.0, record w { infra = r.1 })

-- A call of a store that looks only, one that writes the tenants, and one that writes the runs.
abbrev pub reading : {I A : Type 0} → (World I → A) → Action (World I) A
reading f w = (returned (f w), w)

abbrev pub on_tenants :
    {I A : Type 0} → (List TenantRecord → A × List TenantRecord) → Action (World I) A
on_tenants f w =
    let r = f w.tenants in (returned r.0, record w { tenants = r.1; read = suc w.read })

abbrev pub on_runs : {I A : Type 0} → (List SagaRun → A × List SagaRun) → Action (World I) A
on_runs f w = let r = f w.runs in (returned r.0, record w { runs = r.1; read = suc w.read })

module _ {I : Type 0} (infra_port : SiloPort I) (ids clock : ℕ → Text) where
  abbrev pub memory_port : SiloPort (World I)
  memory_port = record {
    create_project = λ tenant region. on_infra (infra_port.create_project tenant region);
    create_branch = λ tenant project. on_infra (infra_port.create_branch tenant project);
    run_migrations = λ target. on_infra (infra_port.run_migrations target);
    copy_tenant_data = λ tenant target. on_infra (infra_port.copy_tenant_data tenant target);
    deprovision = λ tenant target. on_infra (infra_port.deprovision tenant target);
  }

  abbrev pub memory_store : TenantStore (World I)
  memory_store = record {
    get_tenant = λ id. reading (λ w. Registry.get_tenant w.tenants id);
    set_status =
        λ id status w. on_tenants (λ ts. Registry.set_status ts (clock w.read) id status) w;
    set_database_ref =
        λ id ref w. on_tenants (λ ts. Registry.set_database_ref ts (clock w.read) id ref) w;
    set_tier = λ id tier w. on_tenants (λ ts. Registry.set_tier ts (clock w.read) id tier) w;
  }

  abbrev pub memory_saga_store : SagaStateStore (World I)
  memory_saga_store = record {
    start_run = λ i w.
        on_runs (λ rs. Runs.start_run rs (ids w.minted) (clock w.read) i)
          (record w { minted = suc w.minted });
    mark_step = λ id p w. on_runs (λ rs. Runs.mark_step rs (clock w.read) id p) w;
    mark_status = λ id s o w. on_runs (λ rs. Runs.mark_status rs (clock w.read) id s o) w;
    get_run = λ id. reading (λ w. Runs.get_run w.runs id);
    get_run_by_key = λ key. reading (λ w. Runs.get_run_by_key w.runs key);
  }

  abbrev pub memory_deps : SagaDeps (World I)
  memory_deps = record { port = memory_port; store = memory_store; saga_store = memory_saga_store }

-- A lookup as the data plane reads it.
abbrev pub shown : Option TenantRecord → Option Catalog
shown none = none
shown (some t) = some (catalog_of t)

module _ {I : Type 0} where
  -- The tenant's row, the status of a run, and whether a key has no run.
  abbrev pub row_of : Text → World I → Option Catalog
  row_of id w = shown (Registry.get_tenant w.tenants id)

  abbrev pub run_status : Text → World I → Option SagaStatus
  run_status id w = elim (find (has_run_id id) w.runs) [ none ↦ none | some r ↦ some r.status ]

  abbrev pub key_is_free : Text → World I → Bool
  key_is_free key w = elim (find (has_key key) w.runs) [ none ↦ true | some r ↦ false ]
