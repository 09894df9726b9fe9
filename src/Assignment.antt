-- ===== src/Assignment.antt =====
-- services/assignment: assignments and their submissions (`Store`: src/store.ts, store.memory.ts), and
-- the groups of a group assignment (`Groups`: src/groups.ts, groups.memory.ts).
pub mod Store
pub mod Submissions
pub mod Groups
pub mod Membership
mod Tests
