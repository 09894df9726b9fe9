-- ===== src/Assessment/Attempts/Limit.antt =====
-- Nobody attempts a quiz more often than it allows: services/assessment/src/store.memory.ts.
use lms_saas.Prelude.{
  ℕ, ℤ, suc, ◌+◌, ◌≤◌, ◌≡◌, refl, sym, ap, subst, ◌∙◌, inl, inr, Bool-cases, Bool, false, not,
  Option, none, some, List, [], ◌∷◌, ◌++◌, Text, text_eq, eq_iff, find, filter, filter-append,
  update_first, length, length-append, length-filter-update_first, if_case, arith,
}
use lms_saas.Assessment.Grading.{Runtime}
use lms_saas.Assessment.Records.{
  AssessmentStore, QuizRecord, QuizAttemptRecord, QuizSectionRecord, NewQuizInput,
}
use lms_saas.Assessment.Store.{
  PlacedQuestion, is_quiz, find_quiz, published, publish_found, push_section, push_quiz_question,
  new_quiz, create_quiz,
}
use lms_saas.Assessment.Attempts.{
  StartAttemptResult, is_prior, prior_attempts, is_spent, new_attempt, start_refusal, start_quiz,
  start_found, start_attempt, is_attempt,
}
use lms_saas.Assessment.Attempts.Submission.{
  ResponseInput, SubmitAttemptResult, closed, is_in_progress, tally_of, submit_found,
}

abbrev pub IsWithin : Option ℕ → ℕ → Type 0
IsWithin none made = Unit
IsWithin (some allowed) made = made ≤ allowed

-- As many attempts as the quiz allows, and none without a quiz.
abbrev pub IsAllowed : Option QuizRecord → ℕ → Type 0
IsAllowed none made = made ≡ 0
IsAllowed (some q) made = IsWithin q.attempts_allowed made

-- The invariant.
abbrev pub IsLimited : AssessmentStore → Type 0
IsLimited s =
    (tenant quiz_id user : Text)
    → IsAllowed (find_quiz s tenant quiz_id) (prior_attempts s tenant quiz_id user)

IsWithin-zero : (allowed : Option ℕ) → IsWithin allowed 0
IsWithin-zero none = tt
IsWithin-zero (some n) = omega arith

IsWithin-suc :
    (allowed : Option ℕ) (made : ℕ) → is_spent allowed made ≡ false → IsWithin allowed (suc made)
IsWithin-suc none made h = tt
IsWithin-suc (some n) made h = ground arith

IsAllowed-append :
    (p : QuizRecord → Bool) (qs : List QuizRecord) (q : QuizRecord) (made : ℕ)
    → IsAllowed (find p qs) made
    → IsAllowed (find p (qs ++ (q ∷ []))) made
IsAllowed-append p [] q made h = elim (Bool-cases (p q)) [
  | inl here ↦
      rw here (subst (IsWithin q.attempts_allowed) (sym h) (IsWithin-zero q.attempts_allowed))
  | inr there ↦ rw there h
]
IsAllowed-append p (r ∷ qs) q made h = elim (Bool-cases (p r)) [
  | inl here ↦ rw here (rw here at h)
  | inr there ↦ rw there (IsAllowed-append p qs q made (rw there at h))
]

IsAllowed-published :
    (tenant id : Text) (p : QuizRecord → Bool) (qs : List QuizRecord) (made : ℕ)
    → ((q : QuizRecord) → p (published q) ≡ p q)
    → IsAllowed (find p qs) made
    → IsAllowed (find p (update_first (is_quiz tenant id) published qs)) made
IsAllowed-published tenant id p [] made same h = h
IsAllowed-published tenant id p (q ∷ qs) made same h = elim (Bool-cases (is_quiz tenant id q)) [
  | inl here ↦ elim (Bool-cases (p q)) [
    | inl found ↦ rw here (rw (same q) (rw found (rw found at h)))
    | inr apart ↦ rw here (rw (same q) (rw apart (rw apart at h)))
  ]
  | inr there ↦ elim (Bool-cases (p q)) [
    | inl found ↦ rw there (rw found (rw found at h))
    | inr apart ↦ rw there (rw apart (IsAllowed-published tenant id p qs made same (rw apart at h)))
  ]
]

pub publish_found-IsLimited :
    (s : AssessmentStore) (tenant id : Text) (found : Option QuizRecord)
    → IsLimited s
    → IsLimited (publish_found s tenant id found).1
publish_found-IsLimited s tenant id none h t i user = h t i user
publish_found-IsLimited s tenant id (some q) h t i user =
    IsAllowed-published tenant id (is_quiz t i) s.quizzes (prior_attempts s t i user) (λ r. refl)
      (h t i user)

module _ (ids clock : ℕ → Text) where
  pub create_quiz-IsLimited :
      (s : AssessmentStore) (tenant : Text) (i : NewQuizInput)
      → IsLimited s
      → IsLimited (create_quiz ids clock s tenant i).1
  unfolding create_quiz
  create_quiz-IsLimited s tenant i h t id user =
      IsAllowed-append (is_quiz t id) s.quizzes (new_quiz ids clock s tenant i)
        (prior_attempts s t id user) (h t id user)

  pub push_section-IsLimited :
      (s : AssessmentStore) (tenant quiz_id : Text) (title : Option Text) (position draw : Option ℕ)
      (found : Option QuizRecord)
      → IsLimited s
      → IsLimited (push_section ids clock s tenant quiz_id title position draw found).1
  push_section-IsLimited s tenant quiz_id title position draw none h = h
  push_section-IsLimited s tenant quiz_id title position draw (some q) h = h

  pub push_quiz_question-IsLimited :
      (s : AssessmentStore) (tenant section_id question_id : Text) (points : Option ℤ)
      (position : Option ℕ) (found : Option QuizSectionRecord)
      → IsLimited s
      → IsLimited
          (push_quiz_question ids clock s tenant section_id question_id points position found).1
  push_quiz_question-IsLimited s tenant section_id question_id points position none h = h
  push_quiz_question-IsLimited s tenant section_id question_id points position (some q) h = h

  module _ (runtime : Runtime) where
    pub submit_found-IsLimited :
        (s : AssessmentStore) (tenant id : Text) (inputs : List ResponseInput)
        (found : Option QuizAttemptRecord)
        → IsLimited s
        → IsLimited (submit_found ids clock runtime s tenant id inputs found).1
    submit_found-IsLimited s tenant id inputs none h = h
    submit_found-IsLimited s tenant id inputs (some a) h =
        if_case (λ (r : SubmitAttemptResult × AssessmentStore). IsLimited r.1)
          (not (is_in_progress a.status)) _ _ (λ shut. h)
          (λ running t i user.
            subst (IsAllowed (find_quiz s t i))
              (sym (
                length-filter-update_first (is_attempt tenant id) (is_prior t i user)
                  (closed (tally_of ids clock runtime s tenant a id inputs) (clock s.times))
                  s.attempts (λ b. refl)))
              (h t i user))

  module _ (earlier later : Text → Text → Bool)
      (pick : List PlacedQuestion → ℕ → List PlacedQuestion) where
    -- A quiz that does not refuse has an attempt left.
    start_refusal-none :
        (q : QuizRecord) (now : Text) (prior : ℕ)
        → start_refusal ids clock earlier later pick q now prior ≡ none
        → is_spent q.attempts_allowed prior ≡ false
    start_refusal-none q now prior h = ground arith

    start_quiz-IsLimited :
        (s : AssessmentStore) (tenant quiz_id user now : Text) (q : QuizRecord)
        (refusal : Option StartAttemptResult)
        → find_quiz s tenant quiz_id ≡ some q
        → (refusal ≡ none
            → is_spent q.attempts_allowed (prior_attempts s tenant quiz_id user) ≡ false)
        → IsLimited s
        → IsLimited (start_quiz ids clock earlier later pick s tenant quiz_id user now refusal).1
    start_quiz-IsLimited s tenant quiz_id user now q (some r) found room h t i u = h t i u
    start_quiz-IsLimited s tenant quiz_id user now q none found room h t i u =
        let prior = prior_attempts s tenant quiz_id user in
        let a = new_attempt (ids s.minted) tenant quiz_id user (prior + 1) now in
        let grown =
          ap length (filter-append (is_prior t i u) s.attempts (a ∷ []))
          ∙ length-append (filter (is_prior t i u) s.attempts) (filter (is_prior t i u) (a ∷ [])) in
        elim (Bool-cases (is_prior t i u a)) [
          | inr other ↦
              let same : length (filter (is_prior t i u) (s.attempts ++ (a ∷ [])))
                  ≡ prior_attempts s t i u =
                ground (arith, grown, other) in
              subst (IsAllowed (find_quiz s t i)) (sym same) (h t i u)
          | inl mine ↦
              let t_e : tenant ≡ t = ground (arith, eq_iff tenant t) in
              let i_e : quiz_id ≡ i = ground (arith, eq_iff quiz_id i) in
              let u_e : user ≡ u = ground (arith, eq_iff user u) in
              let one : length (filter (is_prior t i u) (a ∷ [])) ≡ 1 = rw mine refl in
              let before : length (filter (is_prior t i u) s.attempts) ≡ prior =
                rw (sym t_e) (rw (sym i_e) (rw (sym u_e) refl)) in
              let same : length (filter (is_prior t i u) (s.attempts ++ (a ∷ []))) ≡ suc prior =
                omega (arith, grown, one, before) in
              subst (IsAllowed (find_quiz s t i)) (sym same) (
                subst (λ o. IsAllowed o (suc prior)) (sym found ∙ rw t_e (rw i_e refl))
                  (IsWithin-suc q.attempts_allowed prior (room refl)))
        ]

    start_found-IsLimited :
        (s : AssessmentStore) (tenant quiz_id user now : Text) (q : Option QuizRecord)
        → find_quiz s tenant quiz_id ≡ q
        → IsLimited s
        → IsLimited (start_found ids clock earlier later pick s tenant quiz_id user now q).1
    start_found-IsLimited s tenant quiz_id user now none found h = h
    start_found-IsLimited s tenant quiz_id user now (some q) found h =
        start_quiz-IsLimited s tenant quiz_id user now q _ found
          (start_refusal-none q now (prior_attempts s tenant quiz_id user)) h

    pub start_attempt-IsLimited :
        (s : AssessmentStore) (tenant quiz_id user : Text) (now : Option Text)
        → IsLimited s
        → IsLimited (start_attempt ids clock earlier later pick s tenant quiz_id user now).1
    unfolding start_attempt
    start_attempt-IsLimited s tenant quiz_id user (some now) h =
        start_found-IsLimited s tenant quiz_id user now (find_quiz s tenant quiz_id) refl h
    start_attempt-IsLimited s tenant quiz_id user none h =
        start_found-IsLimited (record s { times = suc s.times }) tenant quiz_id user (clock s.times)
          (find_quiz s tenant quiz_id) refl h
