-- ===== src/Rubric/Store.antt =====
-- Rubrics, competencies, objectives and alignments: services/rubric/src/store.memory.ts. `ids` is what
-- `generateId` returns, call by call.
use lms_saas.Prelude.{
  ℕ, suc, ◌+◌, Bool, true, false, not, ◌&&◌, Option, none, some, List, [], ◌∷◌, ◌++◌, map, Text,
  text, text_eq, option_eq, ◌==◌, find, filter, any, update_first, length, if◌then◌else◌,
}
use lms_saas.Rubric.Scoring.{
  analytic, RubricLevelRecord, RubricCriterionRecord, RubricDetail, ScoreSelection,
  ScoreRubricResult, rubric_not_found, compute_rubric_score,
}
use lms_saas.Rubric.Records.{
  AlignmentTarget, quiz, assignment, question, rubric_criterion, RubricRecord, NewLevelInput,
  NewCriterionInput, NewRubricInput, CompetencyRecord, ObjectiveRecord, AlignmentRecord,
  RubricStore, CreateCompetencyResult, competency, unknown_parent, CreateObjectiveResult, objective,
  unknown_competency, AlignResult, alignment, unknown_objective,
}

abbrev list_or_empty {ℓ} : {A : Type ℓ} → Option (List A) → List A
list_or_empty none = []
list_or_empty (some xs) = xs

abbrev or_else {ℓ} : {A : Type ℓ} → Option A → A → A
or_else none fallback = fallback
or_else (some a) fallback = a

abbrev pub is_rubric : Text → Text → RubricDetail → Bool
is_rubric tenant id r = (r.id == id) && (r.tenant_id == tenant)

-- `courseId === undefined || courseId === value`
abbrev matches : Option Text → Option Text → Bool
matches none found = true
matches (some wanted) found = found == some wanted

abbrev without_criteria : RubricDetail → RubricRecord
without_criteria r = record {
  id = r.id;
  tenant_id = r.tenant_id;
  course_id = r.course_id;
  name = r.name;
  kind = r.kind;
}

-- getRubric
unfoldable pub get_rubric : RubricStore → Text → Text → Option RubricDetail
get_rubric s tenant id = find (is_rubric tenant id) s.rubrics

-- listRubrics
unfoldable pub list_rubrics : RubricStore → Text → Option Text → List RubricRecord
list_rubrics s tenant course_id =
    map without_criteria
      (filter (λ r. (r.tenant_id == tenant) && matches course_id r.course_id) s.rubrics)

abbrev remove_first : Text → Text → List RubricDetail → List RubricDetail
remove_first tenant id [] = []
remove_first tenant id (r ∷ rubrics) =
    if is_rubric tenant id r then rubrics else r ∷ remove_first tenant id rubrics

-- deleteRubric
unfoldable pub delete_rubric : RubricStore → Text → Text → Bool × RubricStore
delete_rubric s tenant id =
    if not (any (is_rubric tenant id) s.rubrics)
    then (false, s)
    else (true, record s { rubrics = remove_first tenant id s.rubrics })

abbrev score_found : Option RubricDetail → List ScoreSelection → ScoreRubricResult
score_found none selections = rubric_not_found (text "Rubric not found.")
score_found (some rubric) selections = compute_rubric_score rubric selections

-- scoreRubric
unfoldable pub score_rubric : RubricStore → Text → Text → List ScoreSelection → ScoreRubricResult
score_rubric s tenant id selections = score_found (find (is_rubric tenant id) s.rubrics) selections

-- listCompetencies
unfoldable pub list_competencies : RubricStore → Text → List CompetencyRecord
list_competencies s tenant = filter (λ c. c.tenant_id == tenant) s.competencies

-- listObjectives
unfoldable pub list_objectives : RubricStore → Text → Option Text → List ObjectiveRecord
list_objectives s tenant competency_id =
    filter (λ o. (o.tenant_id == tenant) && matches competency_id o.competency_id) s.objectives

-- listAlignmentsForObjective
unfoldable pub list_alignments_for_objective : RubricStore → Text → Text → List AlignmentRecord
list_alignments_for_objective s tenant objective_id =
    filter (λ a. (a.tenant_id == tenant) && (a.objective_id == objective_id)) s.alignments

abbrev same_target : AlignmentTarget → AlignmentTarget → Bool
same_target quiz quiz = true
same_target assignment assignment = true
same_target question question = true
same_target rubric_criterion rubric_criterion = true
same_target _ _ = false

-- listObjectivesForTarget
unfoldable pub list_objectives_for_target :
    RubricStore → Text → AlignmentTarget → Text → List ObjectiveRecord
list_objectives_for_target s tenant target_type target_id =
    let ids =
      map (λ a. a.objective_id)
        (filter
          (λ a.
            (a.tenant_id == tenant)
            && same_target a.target_type target_type
            && (a.target_id == target_id))
          s.alignments) in
    filter (λ o. (o.tenant_id == tenant) && any (λ id. id == o.id) ids) s.objectives

module _ (ids : ℕ → Text) where
  -- The levels of a criterion, each with the next id.
  abbrev build_levels : Text → Text → ℕ → List NewLevelInput → List RubricLevelRecord
  build_levels tenant criterion_id n [] = []
  build_levels tenant criterion_id n (l ∷ levels) =
      record {
        id = ids n;
        tenant_id = tenant;
        criterion_id = criterion_id;
        label = l.label;
        points = l.points;
        descriptor = l.descriptor;
      }
      ∷ build_levels tenant criterion_id (suc n) levels

  -- buildCriterion, with the ids of its levels set, from the ids read before.
  abbrev pub build_criterion : Text → Text → ℕ → NewCriterionInput → ℕ → RubricCriterionRecord
  build_criterion tenant rubric_id n i position = record {
    id = ids n;
    tenant_id = tenant;
    rubric_id = rubric_id;
    name = i.name;
    position = or_else i.position position;
    levels = build_levels tenant (ids n) (suc n) (list_or_empty i.levels);
  }

  -- The ids that it reads.
  abbrev ids_of : NewCriterionInput → ℕ → ℕ
  ids_of i n = suc n + length (list_or_empty i.levels)

  abbrev build_criteria :
      Text → Text → ℕ → ℕ → List NewCriterionInput → List RubricCriterionRecord × ℕ
  build_criteria tenant rubric_id n position [] = ([], n)
  build_criteria tenant rubric_id n position (i ∷ inputs) =
      let (rest, next) = build_criteria tenant rubric_id (ids_of i n) (suc position) inputs in
      (build_criterion tenant rubric_id n i position ∷ rest, next)

  -- createRubric
  unfoldable pub create_rubric : RubricStore → Text → NewRubricInput → RubricDetail × RubricStore
  create_rubric s tenant i =
      let (criteria, next) =
        build_criteria tenant (ids s.minted) (suc s.minted) 0 (list_or_empty i.criteria) in
      let rubric : RubricDetail = record {
        id = ids s.minted;
        tenant_id = tenant;
        course_id = i.course_id;
        name = i.name;
        kind = or_else i.kind analytic;
        criteria = criteria;
      } in
      (rubric, record s { rubrics = s.rubrics ++ (rubric ∷ []); minted = next })

  abbrev with_criterion : RubricCriterionRecord → RubricDetail → RubricDetail
  with_criterion c r = record r { criteria = r.criteria ++ (c ∷ []) }

  abbrev push_criterion :
      RubricStore
      → Text
      → Text
      → NewCriterionInput
      → Option RubricDetail
      → Option RubricCriterionRecord × RubricStore
  push_criterion s tenant rubric_id i none = (none, s)
  push_criterion s tenant rubric_id i (some rubric) =
      let c = build_criterion tenant rubric_id s.minted i (length rubric.criteria) in
      (
        some c,
        record s {
          rubrics = update_first (is_rubric tenant rubric_id) (with_criterion c) s.rubrics;
          minted = ids_of i s.minted;
        },
      )

  -- addCriterion
  unfoldable pub add_criterion :
      RubricStore → Text → Text → NewCriterionInput → Option RubricCriterionRecord × RubricStore
  add_criterion s tenant rubric_id i =
      push_criterion s tenant rubric_id i (find (is_rubric tenant rubric_id) s.rubrics)

  -- A link that is named, not empty, and not in the tenant.
  abbrev dangles : Option Text → (Text → Bool) → Bool
  dangles none known = false
  dangles (some id) known = not (id == []) && not (known id)

  -- createCompetency
  unfoldable pub create_competency :
      RubricStore → Text → Text → Option Text → Option Text → CreateCompetencyResult × RubricStore
  create_competency s tenant name parent_id description =
      if dangles parent_id (λ id. any (λ c. (c.id == id) && (c.tenant_id == tenant)) s.competencies)
      then (unknown_parent, s)
      else (let c : CompetencyRecord = record {
        id = ids s.minted;
        tenant_id = tenant;
        parent_id = parent_id;
        name = name;
        description = description;
      } in
          (
            competency c,
            record s { competencies = s.competencies ++ (c ∷ []); minted = suc s.minted },
          ))

  -- createObjective
  unfoldable pub create_objective :
      RubricStore → Text → Text → Option Text → Option Text → CreateObjectiveResult × RubricStore
  create_objective s tenant statement competency_id code =
      if dangles competency_id
        (λ id. any (λ c. (c.id == id) && (c.tenant_id == tenant)) s.competencies)
      then (unknown_competency, s)
      else (let o : ObjectiveRecord = record {
        id = ids s.minted;
        tenant_id = tenant;
        competency_id = competency_id;
        code = code;
        statement = statement;
      } in
          (objective o, record s { objectives = s.objectives ++ (o ∷ []); minted = suc s.minted }))

  -- alignObjective
  unfoldable pub align_objective :
      RubricStore → Text → Text → AlignmentTarget → Text → AlignResult × RubricStore
  align_objective s tenant objective_id target_type target_id =
      if not (any (λ o. (o.id == objective_id) && (o.tenant_id == tenant)) s.objectives)
      then (unknown_objective, s)
      else (let a : AlignmentRecord = record {
        id = ids s.minted;
        tenant_id = tenant;
        objective_id = objective_id;
        target_type = target_type;
        target_id = target_id;
      } in
          (alignment a, record s { alignments = s.alignments ++ (a ∷ []); minted = suc s.minted }))
