-- ===== src/Assessment/Attempts/Delivery.antt =====
-- The questions that startAttempt hands out carry no answer keys: `secureBody` of
-- services/assessment/src/store.ts as services/assessment/src/store.memory.ts uses it.
use lms_saas.Prelude.{
  ℕ, suc, ◌≡◌, refl, sym, subst, inl, inr, Bool-cases, Bool, true, Option, none, some, List, [],
  ◌∷◌, Text, text_eq, ◌==◌, eq_iff, All, All-append, arith,
}
use lms_saas.Audit.Json.{undefined, Members, no_members, member}
use lms_saas.Assessment.Grading.{field, is_answer_key, secure_body}
use lms_saas.Assessment.Records.{AssessmentStore, QuizRecord}
use lms_saas.Assessment.Store.{PlacedQuestion, AssembledSection, find_quiz, assembled_sections}
use lms_saas.Assessment.Attempts.{
  DeliveredQuestion, StartAttemptResult, started, deliver, drawn, deliver_sections, start_refusal,
  start_quiz, start_found, start_attempt, prior_attempts,
}

pub secure_body-field :
    (key : Text) (body : Members)
    → is_answer_key key ≡ true
    → field key (secure_body body) ≡ undefined
unfolding secure_body
secure_body-field key no_members h = refl
secure_body-field key (member k v rest) h = elim (Bool-cases (is_answer_key k)) [
  | inl hidden ↦ rw hidden (secure_body-field key rest h)
  | inr kept ↦ elim (Bool-cases (k == key)) [
    | inl same ↦
        absurd (
          ground (arith, subst (λ j. is_answer_key j ≡ true) (sym ((eq_iff k key).0 same)) h, kept))
    | inr apart ↦ rw kept (rw apart (secure_body-field key rest h))
  ]
]

-- No answer key can be read in the prompt.
abbrev pub IsSecured : DeliveredQuestion → Type 0
IsSecured d = (key : Text) → is_answer_key key ≡ true → field key d.prompt ≡ undefined

-- The questions of the answer, none where it refuses.
abbrev pub questions_of : StartAttemptResult → List DeliveredQuestion
questions_of (started a qs) = qs
questions_of _ = []

deliver-IsSecured : (ps : List PlacedQuestion) → All IsSecured (deliver ps)
deliver-IsSecured [] = tt
deliver-IsSecured (p ∷ ps) =
    ((λ key h. secure_body-field key p.question.body h), deliver-IsSecured ps)

module _ (ids clock : ℕ → Text) (earlier later : Text → Text → Bool)
    (pick : List PlacedQuestion → ℕ → List PlacedQuestion) where
  deliver_sections-IsSecured :
      (sections : List AssembledSection)
      → All IsSecured (deliver_sections ids clock earlier later pick sections)
  deliver_sections-IsSecured [] = tt
  deliver_sections-IsSecured (a ∷ rest) =
      All-append IsSecured _ _
        (deliver-IsSecured (drawn ids clock earlier later pick a.section.draw_count a.questions))
        (deliver_sections-IsSecured rest)

  start_refusal-IsSecured :
      (q : QuizRecord) (now : Text) (prior : ℕ) (refusal : StartAttemptResult)
      → start_refusal ids clock earlier later pick q now prior ≡ some refusal
      → questions_of refusal ≡ []
  start_refusal-IsSecured q now prior refusal h = ground arith

  start_quiz-IsSecured :
      (s : AssessmentStore) (tenant quiz_id user now : Text) (refusal : Option StartAttemptResult)
      → ((r : StartAttemptResult) → refusal ≡ some r → questions_of r ≡ [])
      → All IsSecured (
          questions_of
            (start_quiz ids clock earlier later pick s tenant quiz_id user now refusal).0)
  start_quiz-IsSecured s tenant quiz_id user now (some r) h =
      subst (All IsSecured) (sym (h r refl)) tt
  start_quiz-IsSecured s tenant quiz_id user now none h =
      deliver_sections-IsSecured (assembled_sections s tenant quiz_id)

  start_found-IsSecured :
      (s : AssessmentStore) (tenant quiz_id user now : Text) (found : Option QuizRecord)
      → All IsSecured (
          questions_of (start_found ids clock earlier later pick s tenant quiz_id user now found).0)
  start_found-IsSecured s tenant quiz_id user now none = tt
  start_found-IsSecured s tenant quiz_id user now (some q) =
      start_quiz-IsSecured s tenant quiz_id user now _
        (start_refusal-IsSecured q now (prior_attempts s tenant quiz_id user))

  -- No answer leaks: whatever the quiz and whatever the draw returns, every question that an attempt
  -- is started with reads as undefined at each of the keys `correct`, `answer` and `answers`.
  pub start_attempt-IsSecured :
      (s : AssessmentStore) (tenant quiz_id user : Text) (now : Option Text)
      → All IsSecured
          (questions_of (start_attempt ids clock earlier later pick s tenant quiz_id user now).0)
  unfolding start_attempt
  start_attempt-IsSecured s tenant quiz_id user (some now) =
      start_found-IsSecured s tenant quiz_id user now (find_quiz s tenant quiz_id)
  start_attempt-IsSecured s tenant quiz_id user none =
      start_found-IsSecured (record s { times = suc s.times }) tenant quiz_id user (clock s.times)
        (find_quiz s tenant quiz_id)
