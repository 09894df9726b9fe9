-- ===== src/Enrollment.antt =====
-- services/enrollment: `Store` is the roster of enrollments (src/store.ts, src/store.memory.ts),
-- `SelfReg` the self-registration queue with its seat caps (src/selfreg.ts, src/selfreg.memory.ts).
pub mod Store
pub mod Seeds
pub mod SelfReg
mod Tests
