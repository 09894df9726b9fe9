-- ===== src/UserOrg.antt =====
-- services/user-org: parental consent (`Consent`: src/consent.ts and consent.memory.ts) and the links
-- of guardians to students, whose access consent gates (`Guardian`: src/guardian.ts,
-- guardian.memory.ts and guardian.routes.ts).
pub mod Consent
pub mod Guardian
mod Tests
