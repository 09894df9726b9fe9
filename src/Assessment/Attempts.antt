-- ===== src/Assessment/Attempts.antt =====
-- Attempts on a quiz: startAttempt and getAttempt of
-- services/assessment/src/store.memory.ts. `earlier now date` is `now < new Date(date)` and `later` is
-- `now > new Date(date)`; `pick` is the constructor's, which draws from a section's questions.
pub mod Submission
pub mod Limit
pub mod Reached
pub mod Scores
pub mod Delivery
use lms_saas.Prelude.{
  ℕ, suc, ℤ, ◌+◌, Bool, true, false, not, ◌&&◌, ◌||◌, Option, none, some, List, [], ◌∷◌, ◌++◌, Text,
  text_eq, ◌==◌, find, filter, any, update_first, length, leb, if◌then◌else◌,
}
use lms_saas.Audit.Json.{Members}
use lms_saas.Assessment.Grading.{QuestionKind, GradeOutcome, Runtime, grade_response, secure_body}
use lms_saas.Assessment.Records.{
  AssessmentStore, QuestionRecord, QuizRecord, QuizQuestionRecord, QuizAttemptRecord,
  QuizResponseRecord, AttemptStatus, in_progress, submitted, graded,
}
use lms_saas.Assessment.Store.{
  PlacedQuestion, AssembledSection, find_quiz, assembled_sections, or_else,
}

pub record DeliveredQuestion : Type 0 where
  pub question_id : Text
  pub kind : QuestionKind
  pub stem : Text
  pub points : ℤ
  pub prompt : Members

pub data StartAttemptResult : Type 0 where
  started : QuizAttemptRecord → List DeliveredQuestion → StartAttemptResult
  unknown_quiz not_published not_available no_attempts_left : StartAttemptResult

abbrev pub is_prior : Text → Text → Text → QuizAttemptRecord → Bool
is_prior tenant quiz_id user a =
    (a.tenant_id == tenant) && (a.quiz_id == quiz_id) && (a.user_id == user)

-- The number of attempts that the user has made.
abbrev pub prior_attempts : AssessmentStore → Text → Text → Text → ℕ
prior_attempts s tenant quiz_id user = length (filter (is_prior tenant quiz_id user) s.attempts)

abbrev pub is_spent : Option ℕ → ℕ → Bool
is_spent none prior = false
is_spent (some allowed) prior = leb allowed prior

-- A bound that is null or empty is no bound.
abbrev crosses : (Text → Bool) → Option Text → Bool
crosses test none = false
crosses test (some date) = not (date == []) && test date

abbrev pub delivered_of : PlacedQuestion → DeliveredQuestion
delivered_of p = record {
  question_id = p.question.id;
  kind = p.question.kind;
  stem = p.question.stem;
  points = or_else p.placed.points p.question.points;
  prompt = secure_body p.question.body;
}

abbrev pub deliver : List PlacedQuestion → List DeliveredQuestion
deliver [] = []
deliver (p ∷ ps) = delivered_of p ∷ deliver ps

abbrev pub new_attempt : Text → Text → Text → Text → ℕ → Text → QuizAttemptRecord
new_attempt id tenant quiz_id user attempt_no now = record {
  id = id;
  tenant_id = tenant;
  quiz_id = quiz_id;
  user_id = user;
  attempt_no = attempt_no;
  status = in_progress;
  score = none;
  max_score = none;
  started_at = now;
  submitted_at = none;
  graded_at = none;
}

abbrev pub is_attempt : Text → Text → QuizAttemptRecord → Bool
is_attempt tenant id a = (a.id == id) && (a.tenant_id == tenant)

-- getAttempt
unfoldable pub get_attempt : AssessmentStore → Text → Text → Option QuizAttemptRecord
get_attempt s tenant id = find (is_attempt tenant id) s.attempts

module _ (ids clock : ℕ → Text) (earlier later : Text → Text → Bool)
    (pick : List PlacedQuestion → ℕ → List PlacedQuestion) where
  abbrev pub drawn : Option ℕ → List PlacedQuestion → List PlacedQuestion
  drawn none ps = ps
  drawn (some count) ps = if leb (length ps) count then ps else pick ps count

  -- The loop over the sections of the assembled quiz.
  abbrev pub deliver_sections : List AssembledSection → List DeliveredQuestion
  deliver_sections [] = []
  deliver_sections (a ∷ rest) =
      deliver (drawn a.section.draw_count a.questions) ++ deliver_sections rest

  -- The early returns, once the quiz is found.
  abbrev pub start_refusal : QuizRecord → Text → ℕ → Option StartAttemptResult
  start_refusal q now prior =
      if not q.is_published
      then some not_published
      else if crosses (earlier now) q.available_from
      then some not_available
      else if crosses (later now) q.available_until
      then some not_available
      else if is_spent q.attempts_allowed prior
      then some no_attempts_left
      else none

  abbrev pub start_quiz :
      AssessmentStore
      → Text
      → Text
      → Text
      → Text
      → Option StartAttemptResult
      → StartAttemptResult × AssessmentStore
  start_quiz s tenant quiz_id user now (some refusal) = (refusal, s)
  start_quiz s tenant quiz_id user now none =
      let prior = prior_attempts s tenant quiz_id user in
      let attempt = new_attempt (ids s.minted) tenant quiz_id user (prior + 1) now in
      (
        started attempt (deliver_sections (assembled_sections s tenant quiz_id)),
        record s { attempts = s.attempts ++ (attempt ∷ []); minted = suc s.minted },
      )

  abbrev pub start_found :
      AssessmentStore
      → Text
      → Text
      → Text
      → Text
      → Option QuizRecord
      → StartAttemptResult × AssessmentStore
  start_found s tenant quiz_id user now none = (unknown_quiz, s)
  start_found s tenant quiz_id user now (some q) =
      start_quiz s tenant quiz_id user now
        (start_refusal q now (prior_attempts s tenant quiz_id user))

  -- startAttempt; without a time, the clock is read for it.
  unfoldable pub start_attempt :
      AssessmentStore → Text → Text → Text → Option Text → StartAttemptResult × AssessmentStore
  start_attempt s tenant quiz_id user (some now) =
      start_found s tenant quiz_id user now (find_quiz s tenant quiz_id)
  start_attempt s tenant quiz_id user none =
      start_found (record s { times = suc s.times }) tenant quiz_id user (clock s.times)
        (find_quiz s tenant quiz_id)
