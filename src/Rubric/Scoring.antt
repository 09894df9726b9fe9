-- ===== src/Rubric/Scoring.antt =====
-- Scoring a rubric against the levels that are picked: services/rubric/src/scoring.ts, with the types of
-- store.ts. Points are whole and not negative.
use lms_saas.Prelude.{
  ℕ, ◌+◌, max, ◌⊎◌, inl, inr, Bool, Option, none, some, List, [], ◌∷◌, ◌++◌, Text, text, text_eq,
  ◌==◌, find, any, if◌then◌else◌,
}

pub data RubricKind : Type 0 where
  analytic holistic : RubricKind

pub record RubricLevelRecord : Type 0 where
  pub id : Text
  pub tenant_id : Text
  pub criterion_id : Text
  pub label : Text
  pub points : ℕ
  pub descriptor : Option Text

pub record RubricCriterionRecord : Type 0 where
  pub id : Text
  pub tenant_id : Text
  pub rubric_id : Text
  pub name : Text
  pub position : ℕ
  pub levels : List RubricLevelRecord

pub record RubricDetail : Type 0 where
  pub id : Text
  pub tenant_id : Text
  pub course_id : Option Text
  pub name : Text
  pub kind : RubricKind
  pub criteria : List RubricCriterionRecord

pub record ScoreSelection : Type 0 where
  pub criterion_id : Text
  pub level_id : Text

pub record ScoreLine : Type 0 where
  pub criterion_id : Text
  pub level_id : Text
  pub points : ℕ

pub record RubricScore : Type 0 where
  pub rubric_id : Text
  pub total : ℕ
  pub max_total : ℕ
  pub lines : List ScoreLine

-- A result that is not a score carries its message.
pub data ScoreRubricResult : Type 0 where
  scored : RubricScore → ScoreRubricResult
  rubric_not_found invalid_selection : Text → ScoreRubricResult

pub data Picked : Type 0 where
  lines_of : List ScoreLine → Picked
  refused : Text → Picked

abbrev not_in_rubric : Text → Text
not_in_rubric id = text "Criterion " ++ (id ++ text " is not part of this rubric.")

abbrev selected_twice : Text → Text
selected_twice id = text "Criterion " ++ (id ++ text " selected more than once.")

abbrev not_in_criterion : Text → Text → Text
not_in_criterion level id =
    text "Level " ++ (level ++ (text " is not part of criterion " ++ (id ++ text ".")))

abbrev pub is_seen : List Text → Text → Bool
is_seen seen id = any (λ s. s == id) seen

abbrev pub line_of : RubricCriterionRecord → RubricLevelRecord → ScoreLine
line_of c l = record { criterion_id = c.id; level_id = l.id; points = l.points }

-- The loop body on what the two searches find: a line, or the message of an early return.
abbrev pub pick_level : RubricCriterionRecord → Text → Option RubricLevelRecord → ScoreLine ⊎ Text
pick_level c level_id none = inr (not_in_criterion level_id c.id)
pick_level c level_id (some l) = inl (line_of c l)

abbrev pub pick : List Text → ScoreSelection → Option RubricCriterionRecord → ScoreLine ⊎ Text
pick seen sel none = inr (not_in_rubric sel.criterion_id)
pick seen sel (some c) =
    if is_seen seen c.id
    then inr (selected_twice c.id)
    else pick_level c sel.level_id (find (λ l. l.id == sel.level_id) c.levels)

-- The loop over the selections, from the criteria seen and the lines so far.
abbrev pub pick_all :
    List RubricCriterionRecord → List Text → List ScoreLine → List ScoreSelection → Picked
pick_all cs seen lines [] = lines_of lines
pick_all cs seen lines (sel ∷ sels) =
    elim (pick seen sel (find (λ c. c.id == sel.criterion_id) cs)) [
      | inr message ↦ refused message
      | inl line ↦ pick_all cs (line.criterion_id ∷ seen) (lines ++ (line ∷ [])) sels
    ]

abbrev pub total_of : List ScoreLine → ℕ
total_of [] = 0
total_of (l ∷ lines) = l.points + total_of lines

abbrev pub best_of : List RubricLevelRecord → ℕ
best_of [] = 0
best_of (l ∷ levels) = max l.points (best_of levels)

abbrev pub max_of : List RubricCriterionRecord → ℕ
max_of [] = 0
max_of (c ∷ cs) = best_of c.levels + max_of cs

abbrev pub score_picked : RubricDetail → Picked → ScoreRubricResult
score_picked detail (refused message) = invalid_selection message
score_picked detail (lines_of lines) = scored (record {
  rubric_id = detail.id;
  total = total_of lines;
  max_total = max_of detail.criteria;
  lines = lines;
})

-- computeRubricScore
unfoldable pub compute_rubric_score : RubricDetail → List ScoreSelection → ScoreRubricResult
compute_rubric_score detail selections =
    score_picked detail (pick_all detail.criteria [] [] selections)
