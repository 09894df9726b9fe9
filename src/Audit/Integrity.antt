-- ===== src/Audit/Integrity.antt =====
-- What `verifyChain` vouches for.
pub mod Growth
pub mod Evidence
