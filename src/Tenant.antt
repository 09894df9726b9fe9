-- ===== src/Tenant.antt =====
-- services/tenant: the control-plane registry of tenants (`Registry`: src/store.ts,
-- src/store.memory.ts), the rows of silo-promotion runs (`Runs`: src/silo.saga.memory.ts), and the
-- promotion saga over both and over an infrastructure port (`Saga`: src/silo.saga.ts, src/silo.ts).
pub mod Registry
pub mod Delegation
pub mod Provisioning
pub mod Seeds
pub mod Runs
pub mod Saga
mod Tests
