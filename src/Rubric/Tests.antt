-- ===== src/Rubric/Tests.antt =====
-- A rubric of two criteria, of which one is scored.
use lms_saas.Prelude.{ℕ, ◌≤◌, ◌≡◌, refl, none, [], ◌∷◌, List, Text, text, length}
use lms_saas.Rubric.Scoring.{
  analytic, RubricLevelRecord, RubricCriterionRecord, RubricDetail, ScoreSelection, RubricScore,
  scored, total_of, max_of, compute_rubric_score,
}
use lms_saas.Rubric.Bounds.{compute_rubric_score-le}

abbrev level : Text → Text → ℕ → RubricLevelRecord
level criterion id points = record {
  id = id;
  tenant_id = text "t";
  criterion_id = criterion;
  label = id;
  points = points;
  descriptor = none;
}

abbrev criterion : Text → ℕ → RubricCriterionRecord
criterion id position = record {
  id = id;
  tenant_id = text "t";
  rubric_id = text "r";
  name = id;
  position = position;
  levels = level id (text "poor") 1 ∷ level id (text "good") 4 ∷ [];
}

abbrev rubric : RubricDetail
rubric = record {
  id = text "r";
  tenant_id = text "t";
  course_id = none;
  name = text "Essay";
  kind = analytic;
  criteria = criterion (text "style") 0 ∷ criterion (text "thesis") 1 ∷ [];
}

abbrev picks : List ScoreSelection
picks = record { criterion_id = text "thesis"; level_id = text "good" } ∷ []

abbrev tally : RubricScore
tally = record {
  rubric_id = text "r";
  total = 4;
  max_total = 8;
  lines = record { criterion_id = text "thesis"; level_id = text "good"; points = 4 } ∷ [];
}

rubric_scores : compute_rubric_score rubric picks ≡ scored tally
unfolding compute_rubric_score
rubric_scores = refl

compute_rubric_score-le_example :
    (tally.total ≤ tally.max_total)
    × (tally.max_total ≡ max_of rubric.criteria)
    × (tally.total ≡ total_of tally.lines)
    × (length tally.lines ≡ length picks)
compute_rubric_score-le_example = compute_rubric_score-le rubric picks tally rubric_scores
