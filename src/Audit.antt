-- ===== src/Audit.antt =====
-- services/audit/src: the append-only audit log of a tenant and its hash chain.
pub mod Json
pub mod Chain
pub mod Store
pub mod Integrity
mod Tests
