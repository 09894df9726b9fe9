-- ===== src/Assessment/Records.antt =====
-- The rows of the assessment service: services/assessment/src/store.ts. A number of points counts
-- hundredths, as the columns of the schema do, and may be negative; positions are not negative.
use lms_saas.Prelude.{ℕ, ℤ, Bool, Option, List, Text}
use lms_saas.Audit.Json.{Members}
use lms_saas.Assessment.Grading.{QuestionKind}

pub data AttemptStatus : Type 0 where
  in_progress submitted graded : AttemptStatus

pub data GradingMethod : Type 0 where
  highest latest average first : GradingMethod

pub record QuestionLibraryRecord : Type 0 where
  pub id : Text
  pub tenant_id : Text
  pub course_id : Option Text
  pub name : Text

pub record QuestionRecord : Type 0 where
  pub id : Text
  pub tenant_id : Text
  pub library_id : Option Text
  pub kind : QuestionKind
  pub stem : Text
  pub points : ℤ
  pub body : Members
  pub difficulty : Option Text
  pub created_at : Text

pub record QuizRecord : Type 0 where
  pub id : Text
  pub tenant_id : Text
  pub course_id : Text
  pub title : Text
  pub description : Option Text
  pub attempts_allowed : Option ℕ
  pub time_limit_minutes : Option ℕ
  pub shuffle : Bool
  pub available_from : Option Text
  pub available_until : Option Text
  pub grading_method : GradingMethod
  pub is_published : Bool
  pub created_at : Text

pub record QuizSectionRecord : Type 0 where
  pub id : Text
  pub tenant_id : Text
  pub quiz_id : Text
  pub title : Option Text
  pub position : ℕ
  pub draw_count : Option ℕ

pub record QuizQuestionRecord : Type 0 where
  pub id : Text
  pub tenant_id : Text
  pub section_id : Text
  pub question_id : Text
  pub points : Option ℤ
  pub position : ℕ

pub record QuizAttemptRecord : Type 0 where
  pub id : Text
  pub tenant_id : Text
  pub quiz_id : Text
  pub user_id : Text
  pub attempt_no : ℕ
  pub status : AttemptStatus
  pub score : Option ℤ
  pub max_score : Option ℤ
  pub started_at : Text
  pub submitted_at : Option Text
  pub graded_at : Option Text

pub record QuizResponseRecord : Type 0 where
  pub id : Text
  pub tenant_id : Text
  pub attempt_id : Text
  pub question_id : Text
  pub response : Members
  pub awarded : Option ℤ
  pub is_correct : Option Bool

pub record NewQuestionInput : Type 0 where
  pub kind : QuestionKind
  pub stem : Text
  pub points : Option ℤ
  pub body : Option Members
  pub difficulty : Option Text

pub record NewQuizInput : Type 0 where
  pub course_id : Text
  pub title : Text
  pub description : Option Text
  pub attempts_allowed : Option ℕ
  pub time_limit_minutes : Option ℕ
  pub shuffle : Option Bool
  pub available_from : Option Text
  pub available_until : Option Text
  pub grading_method : Option GradingMethod

-- MemoryAssessmentStore, and how often the id source and the clock were read.
pub record AssessmentStore : Type 0 where
  pub libraries : List QuestionLibraryRecord
  pub questions : List QuestionRecord
  pub quizzes : List QuizRecord
  pub sections : List QuizSectionRecord
  pub quiz_questions : List QuizQuestionRecord
  pub attempts : List QuizAttemptRecord
  pub responses : List QuizResponseRecord
  pub minted : ℕ
  pub times : ℕ
