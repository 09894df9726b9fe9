-- ===== src/Tenant/Delegation.antt =====
-- Delegated administration of sub-tenants: services/tenant/src/delegation.ts and
-- delegation.memory.ts. An id that `generateId()` gives is an argument of the call that uses it, and
-- so is an event's time; the memory store's two times are those of `new Date(0)` and `new Date(1)`.
pub mod Hierarchy
pub mod Store
pub mod Scope
mod Tests
