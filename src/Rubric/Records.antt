-- ===== src/Rubric/Records.antt =====
-- The rows of the rubric service beside a rubric's own: services/rubric/src/store.ts and
-- store.memory.ts.
use lms_saas.Prelude.{ℕ, Option, List, Text}
use lms_saas.Rubric.Scoring.{RubricKind, RubricDetail}

pub data AlignmentTarget : Type 0 where
  quiz assignment question rubric_criterion : AlignmentTarget

pub record RubricRecord : Type 0 where
  pub id : Text
  pub tenant_id : Text
  pub course_id : Option Text
  pub name : Text
  pub kind : RubricKind

pub record NewLevelInput : Type 0 where
  pub label : Text
  pub points : ℕ
  pub descriptor : Option Text

pub record NewCriterionInput : Type 0 where
  pub name : Text
  pub position : Option ℕ
  pub levels : Option (List NewLevelInput)

pub record NewRubricInput : Type 0 where
  pub name : Text
  pub kind : Option RubricKind
  pub course_id : Option Text
  pub criteria : Option (List NewCriterionInput)

pub record CompetencyRecord : Type 0 where
  pub id : Text
  pub tenant_id : Text
  pub parent_id : Option Text
  pub name : Text
  pub description : Option Text

pub record ObjectiveRecord : Type 0 where
  pub id : Text
  pub tenant_id : Text
  pub competency_id : Option Text
  pub code : Option Text
  pub statement : Text

pub record AlignmentRecord : Type 0 where
  pub id : Text
  pub tenant_id : Text
  pub objective_id : Text
  pub target_type : AlignmentTarget
  pub target_id : Text

-- MemoryRubricStore, and how often the id source was read.
pub record RubricStore : Type 0 where
  pub rubrics : List RubricDetail
  pub competencies : List CompetencyRecord
  pub objectives : List ObjectiveRecord
  pub alignments : List AlignmentRecord
  pub minted : ℕ

pub data CreateCompetencyResult : Type 0 where
  competency : CompetencyRecord → CreateCompetencyResult
  unknown_parent : CreateCompetencyResult

pub data CreateObjectiveResult : Type 0 where
  objective : ObjectiveRecord → CreateObjectiveResult
  unknown_competency : CreateObjectiveResult

pub data AlignResult : Type 0 where
  alignment : AlignmentRecord → AlignResult
  unknown_objective : AlignResult
