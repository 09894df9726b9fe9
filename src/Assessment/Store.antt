-- ===== src/Assessment/Store.antt =====
-- Question libraries and quizzes: services/assessment/src/store.ts and store.memory.ts. `ids` and
-- `clock` are what `generateId` and `now().toISOString()` return, call by call.
use lms_saas.Prelude.{
  ℕ, suc, ℤ, pos, Bool, true, false, ◌&&◌, Option, none, some, List, [], ◌∷◌, ◌++◌, map, Text,
  text_eq, option_eq, ◌==◌, find, filter, update_first, length, leb, if◌then◌else◌,
}
use lms_saas.Audit.Json.{no_members}
use lms_saas.Assessment.Records.{
  AssessmentStore, QuestionLibraryRecord, QuestionRecord, QuizRecord, QuizSectionRecord,
  QuizQuestionRecord, NewQuestionInput, NewQuizInput, highest,
}

-- `value ?? fallback`
abbrev pub or_else {ℓ} : {A : Type ℓ} → Option A → A → A
or_else none fallback = fallback
or_else (some a) fallback = a

-- `xs.sort((a, b) => a.position - b.position)`, on a list in place of its element that comes first.
module _ {ℓ} {A : Type ℓ} (position : A → ℕ) where
  abbrev insert_by : A → List A → List A
  insert_by x [] = x ∷ []
  insert_by x (y ∷ ys) = if leb (position x) (position y) then x ∷ y ∷ ys else y ∷ insert_by x ys

  abbrev pub sort_by : List A → List A
  sort_by [] = []
  sort_by (x ∷ xs) = insert_by x (sort_by xs)

-- listLibraries
unfoldable pub list_libraries : AssessmentStore → Text → List QuestionLibraryRecord
list_libraries s tenant = filter (λ l. l.tenant_id == tenant) s.libraries

-- listQuestions
unfoldable pub list_questions : AssessmentStore → Text → Text → List QuestionRecord
list_questions s tenant library =
    filter (λ q. (q.tenant_id == tenant) && (q.library_id == some library)) s.questions

abbrev pub is_quiz : Text → Text → QuizRecord → Bool
is_quiz tenant id q = (q.id == id) && (q.tenant_id == tenant)

-- findQuiz
abbrev pub find_quiz : AssessmentStore → Text → Text → Option QuizRecord
find_quiz s tenant id = find (is_quiz tenant id) s.quizzes

abbrev pub published : QuizRecord → QuizRecord
published q = record q { is_published = true }

abbrev pub publish_found :
    AssessmentStore → Text → Text → Option QuizRecord → Option QuizRecord × AssessmentStore
publish_found s tenant id none = (none, s)
publish_found s tenant id (some q) = (
  some (published q),
  record s { quizzes = update_first (is_quiz tenant id) published s.quizzes },
)

-- publishQuiz
unfoldable pub publish_quiz : AssessmentStore → Text → Text → Option QuizRecord × AssessmentStore
publish_quiz s tenant id = publish_found s tenant id (find_quiz s tenant id)

-- A question of a section with the question that it names.
pub record PlacedQuestion : Type 0 where
  pub placed : QuizQuestionRecord
  pub question : QuestionRecord

pub record AssembledSection : Type 0 where
  pub section : QuizSectionRecord
  pub questions : List PlacedQuestion

-- Each with its question, those without one left out.
abbrev pub place : List QuestionRecord → List QuizQuestionRecord → List PlacedQuestion
place qs [] = []
place qs (p ∷ ps) = elim (find (λ q. q.id == p.question_id) qs) [
  | none ↦ place qs ps
  | some q ↦ record { placed = p; question = q } ∷ place qs ps
]

abbrev pub assemble_section : AssessmentStore → Text → QuizSectionRecord → AssembledSection
assemble_section s tenant section = record {
  section = section;
  questions = place s.questions (
      sort_by (λ p. p.position)
        (filter (λ p. (p.tenant_id == tenant) && (p.section_id == section.id)) s.quiz_questions));
}

abbrev pub quiz_sections : AssessmentStore → Text → Text → List QuizSectionRecord
quiz_sections s tenant id =
    filter (λ section. (section.tenant_id == tenant) && (section.quiz_id == id)) s.sections

-- The sections of getQuiz.
unfoldable pub assembled_sections : AssessmentStore → Text → Text → List AssembledSection
assembled_sections s tenant id =
    map (assemble_section s tenant)
      (sort_by (λ section. section.position) (quiz_sections s tenant id))

-- getQuiz
unfoldable pub get_quiz :
    AssessmentStore → Text → Text → Option (QuizRecord × List AssembledSection)
get_quiz s tenant id = elim (find_quiz s tenant id) [
  | none ↦ none
  | some q ↦ some (q, assembled_sections s tenant id)
]

module _ (ids clock : ℕ → Text) where
  -- createLibrary
  unfoldable pub create_library :
      AssessmentStore → Text → Option Text → Text → QuestionLibraryRecord × AssessmentStore
  create_library s tenant course_id name =
      let library : QuestionLibraryRecord = record {
        id = ids s.minted;
        tenant_id = tenant;
        course_id = course_id;
        name = name;
      } in
      (library, record s { libraries = s.libraries ++ (library ∷ []); minted = suc s.minted })

  -- addQuestion
  unfoldable pub add_question :
      AssessmentStore → Text → Text → NewQuestionInput → QuestionRecord × AssessmentStore
  add_question s tenant library_id i =
      let question : QuestionRecord = record {
        id = ids s.minted;
        tenant_id = tenant;
        library_id = some library_id;
        kind = i.kind;
        stem = i.stem;
        points = or_else i.points (pos 100);
        body = or_else i.body no_members;
        difficulty = i.difficulty;
        created_at = clock s.times;
      } in
      (
        question,
        record s {
          questions = s.questions ++ (question ∷ []);
          minted = suc s.minted;
          times = suc s.times;
        },
      )

  abbrev pub new_quiz : AssessmentStore → Text → NewQuizInput → QuizRecord
  new_quiz s tenant i = record {
    id = ids s.minted;
    tenant_id = tenant;
    course_id = i.course_id;
    title = i.title;
    description = i.description;
    attempts_allowed = i.attempts_allowed;
    time_limit_minutes = i.time_limit_minutes;
    shuffle = or_else i.shuffle false;
    available_from = i.available_from;
    available_until = i.available_until;
    grading_method = or_else i.grading_method highest;
    is_published = false;
    created_at = clock s.times;
  }

  -- createQuiz
  unfoldable pub create_quiz : AssessmentStore → Text → NewQuizInput → QuizRecord × AssessmentStore
  create_quiz s tenant i =
      let quiz = new_quiz s tenant i in
      (
        quiz,
        record s { quizzes = s.quizzes ++ (quiz ∷ []); minted = suc s.minted; times = suc s.times },
      )

  abbrev pub push_section :
      AssessmentStore
      → Text
      → Text
      → Option Text
      → Option ℕ
      → Option ℕ
      → Option QuizRecord
      → Option QuizSectionRecord × AssessmentStore
  push_section s tenant quiz_id title position draw_count none = (none, s)
  push_section s tenant quiz_id title position draw_count (some q) =
      let section : QuizSectionRecord = record {
        id = ids s.minted;
        tenant_id = tenant;
        quiz_id = quiz_id;
        title = title;
        position = or_else position (length (quiz_sections s tenant quiz_id));
        draw_count = draw_count;
      } in
      (some section, record s { sections = s.sections ++ (section ∷ []); minted = suc s.minted })

  -- addSection
  unfoldable pub add_section :
      AssessmentStore
      → Text
      → Text
      → Option Text
      → Option ℕ
      → Option ℕ
      → Option QuizSectionRecord × AssessmentStore
  add_section s tenant quiz_id title position draw_count =
      push_section s tenant quiz_id title position draw_count (find_quiz s tenant quiz_id)

  abbrev pub push_quiz_question :
      AssessmentStore
      → Text
      → Text
      → Text
      → Option ℤ
      → Option ℕ
      → Option QuizSectionRecord
      → Option QuizQuestionRecord × AssessmentStore
  push_quiz_question s tenant section_id question_id points position none = (none, s)
  push_quiz_question s tenant section_id question_id points position (some section) =
      let placed : QuizQuestionRecord = record {
        id = ids s.minted;
        tenant_id = tenant;
        section_id = section_id;
        question_id = question_id;
        points = points;
        position = or_else position (
            length (
              filter (λ p. (p.tenant_id == tenant) && (p.section_id == section_id))
                s.quiz_questions));
      } in
      (
        some placed,
        record s { quiz_questions = s.quiz_questions ++ (placed ∷ []); minted = suc s.minted },
      )

  -- addQuizQuestion
  unfoldable pub add_quiz_question :
      AssessmentStore
      → Text
      → Text
      → Text
      → Option ℤ
      → Option ℕ
      → Option QuizQuestionRecord × AssessmentStore
  add_quiz_question s tenant section_id question_id points position =
      push_quiz_question s tenant section_id question_id points position
        (find (λ section. (section.id == section_id) && (section.tenant_id == tenant)) s.sections)
