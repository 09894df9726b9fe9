-- ===== src/Identity.antt =====
-- services/identity: org-scoped authorization (`Authz`: src/authz.ts, authz.memory.ts and
-- authz.routes.ts) and the management of roles (`Rbac`: src/rbac.ts and rbac.memory.ts).
pub mod Authz
pub mod Rbac
mod Tests
