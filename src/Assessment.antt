-- ===== src/Assessment.antt =====
-- services/assessment: grading one response (`Grading`: src/store.ts), the rows
-- (`Records`: src/store.ts), the store of question
-- libraries and quizzes (`Store`), and attempts on a quiz (`Attempts`), both src/store.memory.ts.
pub mod Grading
pub mod Records
pub mod Store
pub mod Attempts
mod Tests
