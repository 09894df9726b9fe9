-- ===== src/Assessment/Tests.antt =====
-- A published quiz of one multiple-choice question, which may be attempted once.
use lms_saas.Prelude.{
  ℕ, pos, ◌+ℤ◌, ◌≡◌, refl, ◌↔◌, Bool, true, false, Option, none, some, List, [], ◌∷◌, Text, text,
  length, All,
}
use lms_saas.Audit.Json.{string, no_members, member}
use lms_saas.Assessment.Grading.{Runtime, multiple_choice, includes, same_texts, grade_response}
use lms_saas.Assessment.Grading.Sets.{same_texts_iff}
use lms_saas.Assessment.Records.{
  AssessmentStore, QuizAttemptRecord, QuizResponseRecord, graded, NewQuestionInput, NewQuizInput,
}
use lms_saas.Assessment.Store.{
  PlacedQuestion, find_quiz, add_question, create_quiz, publish_quiz, add_section,
  add_quiz_question, assembled_sections,
}
use lms_saas.Assessment.Attempts.{prior_attempts, get_attempt, start_attempt}
use lms_saas.Assessment.Attempts.Submission.{
  ResponseInput, SubmitAttemptResult, accepted, already_submitted, submit_attempt,
}
use lms_saas.Assessment.Attempts.Limit.{IsAllowed}
use lms_saas.Assessment.Attempts.Reached.{
  IsReached, start, quiz, publication, attempt, empty_store, IsReached-IsLimited,
}
use lms_saas.Assessment.Attempts.Delivery.{IsSecured, questions_of, start_attempt-IsSecured}
use lms_saas.Assessment.Attempts.Scores.{IsScored, submit_attempt-once}

abbrev ids : ℕ → Text
ids n = text "id"

abbrev clock : ℕ → Text
clock n = text "now"

abbrev runtime : Runtime
runtime = record {
  trim = λ s. s;
  to_lower_case = λ s. s;
  to_number = λ v. none;
  is_within = λ given answer tolerance. true;
}

abbrev never : Text → Text → Bool
never now date = false

abbrev whole : List PlacedQuestion → ℕ → List PlacedQuestion
whole pool count = pool

abbrev tenant : Text
tenant = text "t"

abbrev once : NewQuizInput
once = record {
  course_id = text "c";
  title = text "Quiz";
  description = none;
  attempts_allowed = some 1;
  time_limit_minutes = none;
  shuffle = none;
  available_from = none;
  available_until = none;
  grading_method = none;
}

abbrev keyed : NewQuestionInput
keyed = record {
  kind = multiple_choice;
  stem = text "One or two?";
  points = some (pos 200);
  body = some (member (text "correct") (string (text "one")) no_members);
  difficulty = none;
}

abbrev made : AssessmentStore
made = (create_quiz ids clock empty_store tenant once).1

abbrev ready : AssessmentStore
ready = (publish_quiz made tenant (text "id")).1

abbrev begun : AssessmentStore
begun = (start_attempt ids clock never never whole ready tenant (text "id") (text "ada") none).1

begun-IsReached : IsReached ids clock runtime never never whole begun
begun-IsReached =
    attempt ready tenant (text "id") (text "ada") none
      (publication made tenant (text "id") (quiz empty_store tenant once start))

IsReached-IsLimited_example :
    IsAllowed
      (find_quiz begun tenant (text "id"))
      (prior_attempts begun tenant (text "id") (text "ada"))
IsReached-IsLimited_example =
    IsReached-IsLimited ids clock runtime never never whole begun begun-IsReached tenant (text "id")
      (text "ada")

abbrev key : List Text
key = text "a" ∷ text "b" ∷ []

abbrev given : List Text
given = text "b" ∷ text "a" ∷ []

same_texts_iff_example :
    (same_texts given key ≡ true)
    ↔ ((length given ≡ length key) × ((z : Text) → includes given z ≡ includes key z))
same_texts_iff_example = same_texts_iff given key (refl, (refl, tt))

abbrev stocked : AssessmentStore
stocked =
    let asked = (add_question ids clock ready tenant (text "lib") keyed).1 in
    let divided = (add_section ids clock asked tenant (text "id") none none none).1 in
    (add_quiz_question ids clock divided tenant (text "id") (text "id") none none).1

start_attempt-IsSecured_example : All IsSecured (
    questions_of
      (start_attempt ids clock never never whole stocked tenant (text "id") (text "ada") none).0)
start_attempt-IsSecured_example =
    start_attempt-IsSecured ids clock never never whole stocked tenant (text "id") (text "ada") none

abbrev taken : AssessmentStore
taken = (start_attempt ids clock never never whole stocked tenant (text "id") (text "ada") none).1

abbrev replies : List ResponseInput
replies =
    record {
      question_id = text "id";
      response = member (text "choice") (string (text "one")) no_members;
    }
    ∷ []

abbrev attempt_of : SubmitAttemptResult → Option QuizAttemptRecord
attempt_of (accepted a rs) = some a
attempt_of _ = none

abbrev graded_attempt : QuizAttemptRecord
graded_attempt = record {
  id = text "id";
  tenant_id = tenant;
  quiz_id = text "id";
  user_id = text "ada";
  attempt_no = 1;
  status = graded;
  score = some (pos 200);
  max_score = some (pos 200);
  started_at = text "now";
  submitted_at = some (text "now");
  graded_at = some (text "now");
}

abbrev stored_response : QuizResponseRecord
stored_response = record {
  id = text "id";
  tenant_id = tenant;
  attempt_id = text "id";
  question_id = text "id";
  response = member (text "choice") (string (text "one")) no_members;
  awarded = some (pos 200);
  is_correct = some true;
}

submit_answers :
    (submit_attempt ids clock runtime taken tenant (text "id") replies).0
    ≡ accepted graded_attempt (stored_response ∷ [])
unfolding create_quiz publish_quiz add_question add_section add_quiz_question start_attempt
    assembled_sections submit_attempt grade_response ◌+ℤ◌
submit_answers = refl

submit_attempt-once_example :
    IsScored ids clock runtime taken graded_attempt (stored_response ∷ [])
    × (get_attempt
          (submit_attempt ids clock runtime taken tenant (text "id") replies).1
          tenant
          (text "id")
        ≡ some graded_attempt)
    × (submit_attempt ids clock runtime
          (submit_attempt ids clock runtime taken tenant (text "id") replies).1
          tenant
          (text "id")
          []
        ≡ (
          already_submitted,
          (submit_attempt ids clock runtime taken tenant (text "id") replies).1,
        ))
submit_attempt-once_example =
    submit_attempt-once ids clock runtime taken tenant (text "id") replies [] graded_attempt
      (stored_response ∷ []) submit_answers
