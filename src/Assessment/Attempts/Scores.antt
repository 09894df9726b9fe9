-- ===== src/Assessment/Attempts/Scores.antt =====
-- What submitAttempt of services/assessment/src/store.memory.ts awards, and that it does so once.
use lms_saas.Prelude.{
  ℕ, ℤ, pos, negsuc, ◌+ℤ◌, ◌≤ℤ◌, +ℤ_mono, ◌≡◌, refl, sym, ap, ◌∙◌, ◌⊎◌, inl, inr, Bool-cases, Bool,
  true, false, ◌&&◌, ◌||◌, Option, none, some, List, [], ◌∷◌, ◌++◌, ◌==◌, any, any-false, All,
  find-All, Text, text_eq, find, find-holds, find-update_first, update_first, arith,
}
use lms_saas.Audit.Json.{Members}
use lms_saas.Assessment.Grading.{QuestionKind, GradeOutcome, Runtime, grade_response}
use lms_saas.Assessment.Records.{
  AssessmentStore, QuestionRecord, QuizAttemptRecord, QuizResponseRecord, QuizQuestionRecord,
}
use lms_saas.Assessment.Store.{or_else}
use lms_saas.Assessment.Attempts.{is_attempt, get_attempt}
use lms_saas.Assessment.Attempts.Submission.{
  ResponseInput, Tally, accepted, already_submitted, effective_points, points_of, grade_found,
  grade_all, tally_of, closed, is_in_progress, submit_found, submit_attempt,
}

-- Negative points, of a question or where a quiz places one.
abbrev pub is_negative : ℤ → Bool
is_negative (pos n) = false
is_negative (negsuc n) = true

abbrev pub has_penalty : AssessmentStore → Bool
has_penalty s =
    any (λ q. is_negative q.points) s.questions
    || any (λ p. is_negative (or_else p.points (pos 0))) s.quiz_questions

-- The points that responses were awarded, from a sum on; one that a person decides counts nothing.
abbrev pub awarded_from : ℤ → List QuizResponseRecord → ℤ
awarded_from sum [] = sum
awarded_from sum (r ∷ rs) = awarded_from (sum +ℤ or_else r.awarded (pos 0)) rs

awarded_from-append_one :
    (sum : ℤ) (rs : List QuizResponseRecord) (r : QuizResponseRecord)
    → awarded_from sum (rs ++ (r ∷ [])) ≡ awarded_from sum rs +ℤ or_else r.awarded (pos 0)
awarded_from-append_one sum [] r = refl
awarded_from-append_one sum (x ∷ rs) r =
    awarded_from-append_one (sum +ℤ or_else x.awarded (pos 0)) rs r

-- No more than the points, if these are not negative.
abbrev IsWithin : ℤ → GradeOutcome → Type 0
IsWithin points outcome = or_else outcome.awarded (pos 0) ≤ℤ points

module _ (runtime : Runtime) where
  abbrev graded_as : QuestionKind → Members → Members → ℤ → GradeOutcome
  graded_as = grade_response runtime

  grade_response-IsWithin :
      (kind : QuestionKind) (body response : Members) (points : ℤ)
      → is_negative points ≡ false
      → IsWithin points (graded_as kind body response points)
  unfolding grade_response
  grade_response-IsWithin kind body response points h = ground (arith, h)

points_of-unsigned :
    (q : QuestionRecord) (p : QuizQuestionRecord → Bool) (ps : List QuizQuestionRecord)
    (found : Option QuizQuestionRecord)
    → find p ps ≡ found
    → All (λ x. is_negative (or_else x.points (pos 0)) ≡ false) ps
    → is_negative q.points ≡ false
    → is_negative (points_of q found) ≡ false
points_of-unsigned q p ps none e placed h = h
points_of-unsigned q p ps (some x) e placed h =
    replaced x.points
      (find-All (λ y. is_negative (or_else y.points (pos 0)) ≡ false) p ps x placed e)
  where
    replaced :
        (points : Option ℤ)
        → is_negative (or_else points (pos 0)) ≡ false
        → is_negative (or_else points q.points) ≡ false
    replaced none k = h
    replaced (some points) k = k

module _ (ids clock : ℕ → Text) (runtime : Runtime) where
  -- The tally agrees with the responses it has stored.
  abbrev Agrees : Tally → Type 0
  Agrees t = t.score ≡ awarded_from (pos 0) t.stored

  grade_found-Agrees :
      (s : AssessmentStore) (tenant : Text) (attempt : QuizAttemptRecord) (id : Text)
      (input : ResponseInput) (q : Option QuestionRecord) (t : Tally)
      → Agrees t
      → Agrees (grade_found ids clock runtime s tenant attempt id input q t)
  grade_found-Agrees s tenant attempt id input none t h = h
  grade_found-Agrees s tenant attempt id input (some q) t h =
      ap (λ sum. sum +ℤ or_else (graded input q).awarded (pos 0)) h
      ∙ sym (awarded_from-append_one (pos 0) t.stored _)
    where
      graded : ResponseInput → QuestionRecord → GradeOutcome
      graded i x =
          grade_response runtime x.kind x.body i.response
            (effective_points s tenant attempt.quiz_id i.question_id x)

  grade_all-Agrees :
      (s : AssessmentStore) (tenant : Text) (attempt : QuizAttemptRecord) (id : Text)
      (inputs : List ResponseInput) (t : Tally)
      → Agrees t
      → Agrees (grade_all ids clock runtime s tenant attempt id inputs t)
  grade_all-Agrees s tenant attempt id [] t h = h
  grade_all-Agrees s tenant attempt id (input ∷ inputs) t h =
      grade_all-Agrees s tenant attempt id inputs _
        (grade_found-Agrees s tenant attempt id input _ t h)

  module _ (s : AssessmentStore) (unsigned : has_penalty s ≡ false) where
    asked : All (λ q. is_negative q.points ≡ false) s.questions
    asked = any-false (λ q. is_negative q.points) s.questions (ground (arith, unsigned))

    placed : All (λ p. is_negative (or_else p.points (pos 0)) ≡ false) s.quiz_questions
    placed =
        any-false (λ p. is_negative (or_else p.points (pos 0))) s.quiz_questions
          (ground (arith, unsigned))

    grade_found-le :
        (tenant : Text) (attempt : QuizAttemptRecord) (id : Text) (input : ResponseInput)
        (found : Option QuestionRecord) (t : Tally)
        → find (λ q. (q.id == input.question_id) && (q.tenant_id == tenant)) s.questions ≡ found
        → t.score ≤ℤ t.max_score
        → (grade_found ids clock runtime s tenant attempt id input found t).score
          ≤ℤ (grade_found ids clock runtime s tenant attempt id input found t).max_score
    grade_found-le tenant attempt id input none t e h = h
    grade_found-le tenant attempt id input (some q) t e h =
        let points = effective_points s tenant attempt.quiz_id input.question_id q in
        let real : is_negative q.points ≡ false =
          find-All (λ x. is_negative x.points ≡ false) _ s.questions q asked e in
        +ℤ_mono t.score t.max_score _ points h (
          grade_response-IsWithin runtime q.kind q.body input.response points
            (points_of-unsigned q _ s.quiz_questions _ refl placed real))

    grade_all-le :
        (tenant : Text) (attempt : QuizAttemptRecord) (id : Text) (inputs : List ResponseInput)
        (t : Tally)
        → t.score ≤ℤ t.max_score
        → (grade_all ids clock runtime s tenant attempt id inputs t).score
          ≤ℤ (grade_all ids clock runtime s tenant attempt id inputs t).max_score
    grade_all-le tenant attempt id [] t h = h
    grade_all-le tenant attempt id (input ∷ inputs) t h =
        grade_all-le tenant attempt id inputs _ (grade_found-le tenant attempt id input _ t refl h)

  -- An answer of submitAttempt takes an attempt in progress, which it closes.
  submit_cases :
      (s : AssessmentStore) (tenant id : Text) (inputs : List ResponseInput)
      (found : Option QuizAttemptRecord) (a : QuizAttemptRecord) (rs : List QuizResponseRecord)
      → (submit_found ids clock runtime s tenant id inputs found).0 ≡ accepted a rs
      → (before : QuizAttemptRecord) × (found ≡ some before)
        × (a ≡ closed (tally_of ids clock runtime s tenant before id inputs) (clock s.times) before)
        × (rs ≡ (tally_of ids clock runtime s tenant before id inputs).stored)
        × ((submit_found ids clock runtime s tenant id inputs found).1.attempts
            ≡ update_first
                (is_attempt tenant id)
                (closed (tally_of ids clock runtime s tenant before id inputs) (clock s.times))
                s.attempts)
  submit_cases s tenant id inputs none a rs h = absurd (ground arith)
  submit_cases s tenant id inputs (some before) a rs h =
      elim (Bool-cases (is_in_progress before.status)) [
        | inl running ↦ (
          before,
          refl,
          ground (arith, running),
          ground (arith, running),
          ground (arith, running),
        )
        | inr shut ↦ absurd (ground (arith, shut))
      ]

  -- The score is what the responses were awarded, and at most the maximum unless points are negative.
  abbrev pub IsScored : AssessmentStore → QuizAttemptRecord → List QuizResponseRecord → Type 0
  IsScored s a rs =
      (score max_score : ℤ) × (a.score ≡ some score)
      × (a.max_score ≡ some max_score)
      × (score ≡ awarded_from (pos 0) rs)
      × ((score ≤ℤ max_score) ⊎ (has_penalty s ≡ true))

  submit_attempt-score :
      (s : AssessmentStore) (tenant id : Text) (inputs : List ResponseInput) (a : QuizAttemptRecord)
      (rs : List QuizResponseRecord)
      → (submit_attempt ids clock runtime s tenant id inputs).0 ≡ accepted a rs
      → IsScored s a rs
  unfolding submit_attempt
  submit_attempt-score s tenant id inputs a rs h =
      let (before, found, same, kept, after) =
        submit_cases s tenant id inputs (find (is_attempt tenant id) s.attempts) a rs h in
      let t = tally_of ids clock runtime s tenant before id inputs in
      let start : Tally = record {
        score = pos 0;
        max_score = pos 0;
        any_manual = false;
        stored = [];
        minted = s.minted;
      } in
      (
        t.score,
        t.max_score,
        ap (λ x. x.score) same,
        ap (λ x. x.max_score) same,
        grade_all-Agrees s tenant before id inputs start refl
            ∙ ap (awarded_from (pos 0)) (sym kept),
        elim (Bool-cases (has_penalty s)) [
          | inl negative ↦ inr negative
          | inr unsigned ↦ inl (grade_all-le s unsigned tenant before id inputs start (omega arith))
        ],
      )

  closed-status :
      (t : Tally) (now : Text) (a : QuizAttemptRecord)
      → is_in_progress (closed t now a).status ≡ false
  closed-status t now a = ground arith

  submit_found-shut :
      (s : AssessmentStore) (tenant id : Text) (inputs : List ResponseInput) (a : QuizAttemptRecord)
      → is_in_progress a.status ≡ false
      → submit_found ids clock runtime s tenant id inputs (some a) ≡ (already_submitted, s)
  submit_found-shut s tenant id inputs a h = rw h refl

  -- An attempt is scored once: the attempt with which a submission is accepted has as its score the
  -- sum of what its responses were awarded, which is at most its maximum unless some question or
  -- placement of the store has negative points; it is what is read back, and a further submission with
  -- any responses is refused as already submitted and changes nothing.
  pub submit_attempt-once :
      (s : AssessmentStore) (tenant id : Text) (inputs more : List ResponseInput)
      (a : QuizAttemptRecord) (rs : List QuizResponseRecord)
      → (submit_attempt ids clock runtime s tenant id inputs).0 ≡ accepted a rs
      → let after = (submit_attempt ids clock runtime s tenant id inputs).1 in
        IsScored s a rs
        × (get_attempt after tenant id ≡ some a)
        × (submit_attempt ids clock runtime after tenant id more ≡ (already_submitted, after))
  unfolding submit_attempt get_attempt
  submit_attempt-once s tenant id inputs more a rs h =
      let (before, found, same, kept, rows) =
        submit_cases s tenant id inputs (find (is_attempt tenant id) s.attempts) a rs h in
      let t = tally_of ids clock runtime s tenant before id inputs in
      let now = clock s.times in
      let after =
        (submit_found ids clock runtime s tenant id inputs
          (find (is_attempt tenant id) s.attempts)).1 in
      let mine = find-holds (is_attempt tenant id) s.attempts before found in
      let again : find (is_attempt tenant id) after.attempts ≡ some (closed t now before) =
        ap (find (is_attempt tenant id)) rows
        ∙ find-update_first (is_attempt tenant id) (closed t now) s.attempts before found mine in
      (
        submit_attempt-score s tenant id inputs a rs h,
        again ∙ ap some (sym same),
        ap (submit_found ids clock runtime after tenant id more) again
            ∙ submit_found-shut after tenant id more (closed t now before)
                (closed-status t now before),
      )
