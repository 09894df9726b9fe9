-- ===== src/Discussion.antt =====
-- services/discussion: forums, topics and posts (`Store`: src/store.ts, store.memory.ts), the cascade of a
-- deletion (`Cascade`), and what keeps the replies attached (`Threads`).
pub mod Store
pub mod Cascade
pub mod Threads
pub mod Replies
mod Tests
