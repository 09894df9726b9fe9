-- ===== src/Rubric.antt =====
-- services/rubric: the tally of a rubric (`Scoring`: src/scoring.ts) and the store of rubrics,
-- competencies, objectives and alignments (`Records` and `Store`: src/store.ts and
-- store.memory.ts).
pub mod Scoring
pub mod Records
pub mod Store
pub mod Bounds
mod Tests
