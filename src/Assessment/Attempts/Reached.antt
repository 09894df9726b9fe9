-- ===== src/Assessment/Attempts/Reached.antt =====
-- The stores that calls of services/assessment/src/store.memory.ts reach, and the limit on attempts in
-- them.
use lms_saas.Prelude.{ℕ, ℤ, refl, Bool, Option, List, [], Text, text_eq}
use lms_saas.Assessment.Grading.{Runtime}
use lms_saas.Assessment.Records.{AssessmentStore, NewQuestionInput, NewQuizInput}
use lms_saas.Assessment.Store.{
  PlacedQuestion, publish_quiz, create_library, add_question, create_quiz, add_section,
  add_quiz_question,
}
use lms_saas.Assessment.Attempts.{start_attempt}
use lms_saas.Assessment.Attempts.Submission.{ResponseInput, submit_attempt}
use lms_saas.Assessment.Attempts.Limit.{
  IsLimited, publish_found-IsLimited, create_quiz-IsLimited, push_section-IsLimited,
  push_quiz_question-IsLimited, submit_found-IsLimited, start_attempt-IsLimited,
}

abbrev pub empty_store : AssessmentStore
empty_store = record {
  libraries = [];
  questions = [];
  quizzes = [];
  sections = [];
  quiz_questions = [];
  attempts = [];
  responses = [];
  minted = 0;
  times = 0;
}

module _ (ids clock : ℕ → Text) (runtime : Runtime) (earlier later : Text → Text → Bool)
    (pick : List PlacedQuestion → ℕ → List PlacedQuestion) where
  -- The stores that calls reach from the empty one.
  pub data IsReached : AssessmentStore → Type 0 where
    start : IsReached empty_store
    library :
        (s : AssessmentStore) (tenant : Text) (course : Option Text) (name : Text)
        → IsReached s
        → IsReached (create_library ids clock s tenant course name).1
    question :
        (s : AssessmentStore) (tenant library_id : Text) (i : NewQuestionInput)
        → IsReached s
        → IsReached (add_question ids clock s tenant library_id i).1
    quiz :
        (s : AssessmentStore) (tenant : Text) (i : NewQuizInput)
        → IsReached s
        → IsReached (create_quiz ids clock s tenant i).1
    publication :
        (s : AssessmentStore) (tenant id : Text)
        → IsReached s
        → IsReached (publish_quiz s tenant id).1
    section :
        (s : AssessmentStore) (tenant quiz_id : Text) (title : Option Text)
        (position draw : Option ℕ)
        → IsReached s
        → IsReached (add_section ids clock s tenant quiz_id title position draw).1
    placement :
        (s : AssessmentStore) (tenant section_id question_id : Text) (points : Option ℤ)
        (position : Option ℕ)
        → IsReached s
        → IsReached (add_quiz_question ids clock s tenant section_id question_id points position).1
    attempt :
        (s : AssessmentStore) (tenant quiz_id user : Text) (now : Option Text)
        → IsReached s
        → IsReached (start_attempt ids clock earlier later pick s tenant quiz_id user now).1
    submission :
        (s : AssessmentStore) (tenant id : Text) (inputs : List ResponseInput)
        → IsReached s
        → IsReached (submit_attempt ids clock runtime s tenant id inputs).1

  -- Nobody attempts a quiz more often than it allows: in every store that the calls reach, each user
  -- has made at most as many attempts on a quiz as `attemptsAllowed` says where it is set, and none on
  -- a quiz that does not exist.
  pub IsReached-IsLimited : (s : AssessmentStore) → IsReached s → IsLimited s
  unfolding create_library add_question publish_quiz add_section add_quiz_question submit_attempt
  IsReached-IsLimited s start t i user = refl
  IsReached-IsLimited _ (library s tenant course name r) t i user = IsReached-IsLimited s r t i user
  IsReached-IsLimited _ (question s tenant library_id input r) t i user =
      IsReached-IsLimited s r t i user
  IsReached-IsLimited _ (quiz s tenant input r) t i user =
      create_quiz-IsLimited ids clock s tenant input (IsReached-IsLimited s r) t i user
  IsReached-IsLimited _ (publication s tenant id r) t i user =
      publish_found-IsLimited s tenant id _ (IsReached-IsLimited s r) t i user
  IsReached-IsLimited _ (section s tenant quiz_id title position draw r) t i user =
      push_section-IsLimited ids clock s tenant quiz_id title position draw _
        (IsReached-IsLimited s r) t i user
  IsReached-IsLimited _ (placement s tenant section_id question_id points position r) t i user =
      push_quiz_question-IsLimited ids clock s tenant section_id question_id points position _
        (IsReached-IsLimited s r) t i user
  IsReached-IsLimited _ (attempt s tenant quiz_id who now r) t i user =
      start_attempt-IsLimited ids clock earlier later pick s tenant quiz_id who now
        (IsReached-IsLimited s r) t i user
  IsReached-IsLimited _ (submission s tenant id inputs r) t i user =
      submit_found-IsLimited ids clock runtime s tenant id inputs _ (IsReached-IsLimited s r) t i
        user
