-- ===== src/Assessment/Attempts/Submission.antt =====
-- Submitting an attempt: submitAttempt of services/assessment/src/store.memory.ts.
use lms_saas.Prelude.{
  ℕ, suc, ℤ, pos, ◌+ℤ◌, Bool, true, false, not, ◌&&◌, Option, none, some, List, [], ◌∷◌, ◌++◌, Text,
  text_eq, ◌==◌, find, any, update_first, if◌then◌else◌,
}
use lms_saas.Audit.Json.{Members}
use lms_saas.Assessment.Grading.{GradeOutcome, Runtime, grade_response}
use lms_saas.Assessment.Records.{
  AssessmentStore, QuestionRecord, QuizAttemptRecord, QuizResponseRecord, QuizQuestionRecord,
  AttemptStatus, in_progress, submitted, graded,
}
use lms_saas.Assessment.Store.{or_else}
use lms_saas.Assessment.Attempts.{is_attempt}

pub record ResponseInput : Type 0 where
  pub question_id : Text
  pub response : Members

pub data SubmitAttemptResult : Type 0 where
  accepted : QuizAttemptRecord → List QuizResponseRecord → SubmitAttemptResult
  unknown_attempt already_submitted : SubmitAttemptResult

abbrev pub points_of : QuestionRecord → Option QuizQuestionRecord → ℤ
points_of q none = q.points
points_of q (some p) = or_else p.points q.points

-- effectivePoints
abbrev pub effective_points : AssessmentStore → Text → Text → Text → QuestionRecord → ℤ
effective_points s tenant quiz_id question_id q = points_of q (
    find
      (λ p.
        (p.tenant_id == tenant)
        && (p.question_id == question_id)
        && any (λ section. (section.id == p.section_id) && (section.quiz_id == quiz_id)) s.sections)
      s.quiz_questions)

-- What the loop over the responses adds up.
pub record Tally : Type 0 where
  pub score : ℤ
  pub max_score : ℤ
  pub any_manual : Bool
  pub stored : List QuizResponseRecord
  pub minted : ℕ

-- The assignments to the attempt.
abbrev pub closed : Tally → Text → QuizAttemptRecord → QuizAttemptRecord
closed t now a = record a {
  score = some t.score;
  max_score = some t.max_score;
  submitted_at = some now;
  status = if t.any_manual then submitted else graded;
  graded_at = if t.any_manual then a.graded_at else some now;
}

abbrev pub is_in_progress : AttemptStatus → Bool
is_in_progress in_progress = true
is_in_progress _ = false

module _ (ids clock : ℕ → Text) (runtime : Runtime) where
  -- The loop body for a question that is found and the outcome of grading.
  abbrev pub add_outcome : Text → Text → ResponseInput → ℤ → GradeOutcome → Tally → Tally
  add_outcome tenant attempt_id input points outcome t = record {
    score = t.score +ℤ or_else outcome.awarded (pos 0);
    max_score = t.max_score +ℤ points;
    any_manual = if outcome.manual then true else t.any_manual;
    stored =
        t.stored
        ++ (record {
          id = ids t.minted;
          tenant_id = tenant;
          attempt_id = attempt_id;
          question_id = input.question_id;
          response = input.response;
          awarded = outcome.awarded;
          is_correct = outcome.is_correct;
        }
            ∷ []);
    minted = suc t.minted;
  }

  abbrev pub grade_found :
      AssessmentStore
      → Text
      → QuizAttemptRecord
      → Text
      → ResponseInput
      → Option QuestionRecord
      → Tally
      → Tally
  grade_found s tenant attempt attempt_id input none t = t
  grade_found s tenant attempt attempt_id input (some q) t =
      let points = effective_points s tenant attempt.quiz_id input.question_id q in
      add_outcome tenant attempt_id input points
        (grade_response runtime q.kind q.body input.response points) t

  abbrev pub grade_all :
      AssessmentStore → Text → QuizAttemptRecord → Text → List ResponseInput → Tally → Tally
  grade_all s tenant attempt attempt_id [] t = t
  grade_all s tenant attempt attempt_id (input ∷ inputs) t =
      grade_all s tenant attempt attempt_id inputs (
        grade_found s tenant attempt attempt_id input
          (find (λ q. (q.id == input.question_id) && (q.tenant_id == tenant)) s.questions) t)

  abbrev pub tally_of :
      AssessmentStore → Text → QuizAttemptRecord → Text → List ResponseInput → Tally
  tally_of s tenant attempt attempt_id inputs =
      grade_all s tenant attempt attempt_id inputs (record {
        score = pos 0;
        max_score = pos 0;
        any_manual = false;
        stored = [];
        minted = s.minted;
      })

  abbrev pub submit_found :
      AssessmentStore
      → Text
      → Text
      → List ResponseInput
      → Option QuizAttemptRecord
      → SubmitAttemptResult × AssessmentStore
  submit_found s tenant attempt_id inputs none = (unknown_attempt, s)
  submit_found s tenant attempt_id inputs (some attempt) =
      if not (is_in_progress attempt.status)
      then (already_submitted, s)
      else let t = tally_of s tenant attempt attempt_id inputs in
        let now = clock s.times in
        (
          accepted (closed t now attempt) t.stored,
          record s {
            attempts = update_first (is_attempt tenant attempt_id) (closed t now) s.attempts;
            responses = s.responses ++ t.stored;
            minted = t.minted;
            times = suc s.times;
          },
        )

  -- submitAttempt
  unfoldable pub submit_attempt :
      AssessmentStore → Text → Text → List ResponseInput → SubmitAttemptResult × AssessmentStore
  submit_attempt s tenant attempt_id inputs =
      submit_found s tenant attempt_id inputs (find (is_attempt tenant attempt_id) s.attempts)
