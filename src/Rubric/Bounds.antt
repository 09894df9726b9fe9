-- ===== src/Rubric/Bounds.antt =====
-- A rubric's score lies within its maximum: services/rubric/src/scoring.ts.
use lms_saas.Prelude.{
  ℕ, ◌+◌, ◌≤◌, ◌≡◌, refl, sym, ap, subst, ◌∙◌, ◌⊎◌, inl, inr, Bool-cases, Bool, false, Option, none,
  some, List, [], ◌∷◌, ◌++◌, Text, text_eq, ◌==◌, eq_iff, find, find-holds, length, length-append,
  if◌then◌else◌, arith,
}
use lms_saas.Rubric.Scoring.{
  RubricLevelRecord, RubricCriterionRecord, RubricDetail, ScoreSelection, ScoreLine, RubricScore,
  scored, Picked, lines_of, refused, is_seen, line_of, pick_level, pick, pick_all, total_of,
  best_of, max_of, score_picked, compute_rubric_score,
}

-- What the criteria that are not seen can still add.
abbrev room : List Text → List RubricCriterionRecord → ℕ
room seen [] = 0
room seen (c ∷ cs) = (if is_seen seen c.id then 0 else best_of c.levels) + room seen cs

room-nil : (cs : List RubricCriterionRecord) → room [] cs ≡ max_of cs
room-nil [] = refl
room-nil (c ∷ cs) = omega (arith, room-nil cs)

room-seen :
    (seen : List Text) (id : Text) (cs : List RubricCriterionRecord)
    → room (id ∷ seen) cs ≤ room seen cs
room-seen seen id [] = omega arith
room-seen seen id (c ∷ cs) = ground (arith, room-seen seen id cs)

-- A criterion that is found and not yet seen leaves room for its best level.
room-found :
    (seen : List Text) (id : Text) (c : RubricCriterionRecord) (cs : List RubricCriterionRecord)
    → find (λ d. d.id == id) cs ≡ some c
    → is_seen seen id ≡ false
    → best_of c.levels + room (id ∷ seen) cs ≤ room seen cs
room-found seen id c [] h fresh = absurd (ground arith)
room-found seen id c (d ∷ cs) h fresh = elim (Bool-cases (d.id == id)) [
  | inl here ↦
      let same : d ≡ c = ground (arith, here) in
      let d_id = (eq_iff d.id id).0 here in
      let unseen : is_seen seen d.id ≡ false =
        subst (λ x. is_seen seen x ≡ false) (sym d_id) fresh in
      let best : best_of d.levels ≡ best_of c.levels = ap (λ x. best_of x.levels) same in
      ground (arith, best, unseen, eq_iff id d.id, d_id, room-seen seen id cs)
  | inr there ↦
      let rest = room-found seen id c cs (rw there at h) fresh in
      ground (arith, eq_iff id d.id, eq_iff d.id id, there, rest)
]

points-best :
    (p : RubricLevelRecord → Bool) (levels : List RubricLevelRecord) (l : RubricLevelRecord)
    → find p levels ≡ some l
    → l.points ≤ best_of levels
points-best p [] l h = absurd (ground arith)
points-best p (k ∷ levels) l h = elim (Bool-cases (p k)) [
  | inl here ↦
      let same : k ≡ l = ground (arith, here) in
      let points : k.points ≡ l.points = ap (λ x. x.points) same in omega (arith, points)
  | inr there ↦ let rest = points-best p levels l (rw there at h) in omega (arith, rest)
]

total_of-append :
    (lines : List ScoreLine) (l : ScoreLine)
    → total_of (lines ++ (l ∷ [])) ≡ total_of lines + l.points
total_of-append [] l = omega arith
total_of-append (k ∷ lines) l = omega (arith, total_of-append lines l)

sum_cases : (o : ScoreLine ⊎ Text) → ((l : ScoreLine) × (o ≡ inl l)) ⊎ ((m : Text) × (o ≡ inr m))
sum_cases (inl l) = inl (l, refl)
sum_cases (inr m) = inr (m, refl)

pick_level-line :
    (c : RubricCriterionRecord) (id : Text) (level : Option RubricLevelRecord) (line : ScoreLine)
    → pick_level c id level ≡ inl line
    → (l : RubricLevelRecord) × (level ≡ some l) × (line ≡ line_of c l)
pick_level-line c id none line h = absurd (ground arith)
pick_level-line c id (some l) line h = (l, refl, ground arith)

-- A line is the pick of a level of a criterion that is not yet seen.
pick-line :
    (seen : List Text) (sel : ScoreSelection) (found : Option RubricCriterionRecord)
    (line : ScoreLine)
    → pick seen sel found ≡ inl line
    → (c : RubricCriterionRecord) × (found ≡ some c)
      × (is_seen seen c.id ≡ false)
      × (line.criterion_id ≡ c.id)
      × (line.points ≤ best_of c.levels)
pick-line seen sel none line h = absurd (ground arith)
pick-line seen sel (some c) line h = elim (Bool-cases (is_seen seen c.id)) [
  | inl twice ↦ absurd (ground (arith, twice))
  | inr fresh ↦
      let (l, found, same) = pick_level-line c sel.level_id _ line (rw fresh at h) in
      let within = points-best (λ k. k.id == sel.level_id) c.levels l found in
      let points : line.points ≡ l.points = ap (λ x. x.points) same in
      (c, refl, fresh, ap (λ x. x.criterion_id) same, omega (arith, within, points))
]

pick_all-le :
    (cs : List RubricCriterionRecord) (seen : List Text) (lines : List ScoreLine)
    (sels : List ScoreSelection) (m : ℕ) (out : List ScoreLine)
    → total_of lines + room seen cs ≤ m
    → pick_all cs seen lines sels ≡ lines_of out
    → (total_of out ≤ m) × (length out ≡ length lines + length sels)
pick_all-le cs seen lines [] m out le h =
    let same : lines ≡ out = ground arith in
    let total = ap total_of same in
    let count = ap length same in (omega (arith, le, total), omega (arith, count))
pick_all-le cs seen lines (sel ∷ sels) m out le h =
    elim (sum_cases (pick seen sel (find (λ c. c.id == sel.criterion_id) cs))) [
      | inr (message, stop) ↦ absurd (ground (arith, rw (stop, pick_all) at h))
      | inl (line, go) ↦
          let (c, found, fresh, id, within) = pick-line seen sel _ line go in
          let c_id : c.id ≡ sel.criterion_id =
            (eq_iff c.id sel.criterion_id).0
              (find-holds (λ d. d.id == sel.criterion_id) cs c found) in
          let key : line.criterion_id ≡ sel.criterion_id = id ∙ c_id in
          let more =
            room-found seen sel.criterion_id c cs found
              (subst (λ x. is_seen seen x ≡ false) c_id fresh) in
          let left : room (line.criterion_id ∷ seen) cs ≡ room (sel.criterion_id ∷ seen) cs =
            ap (λ x. room (x ∷ seen) cs) key in
          let (bound, count) =
            pick_all-le cs (line.criterion_id ∷ seen) (lines ++ (line ∷ [])) sels m out
              (omega (arith, le, within, more, left, total_of-append lines line))
              (rw (go, pick_all) at h) in
          (bound, omega (arith, count, length-append lines (line ∷ [])))
    ]

score_picked-le :
    (detail : RubricDetail) (sels : List ScoreSelection) (picked : Picked) (score : RubricScore)
    → pick_all detail.criteria [] [] sels ≡ picked
    → score_picked detail picked ≡ scored score
    → (score.total ≤ score.max_total)
      × (score.max_total ≡ max_of detail.criteria)
      × (score.total ≡ total_of score.lines)
      × (length score.lines ≡ length sels)
score_picked-le detail sels (refused message) score h e = absurd (ground arith)
score_picked-le detail sels (lines_of lines) score h e =
    let (bound, count) =
      pick_all-le detail.criteria [] [] sels (max_of detail.criteria) lines
        (omega (arith, room-nil detail.criteria)) h in
    let total : score.total ≡ total_of lines = ground arith in
    let top : score.max_total ≡ max_of detail.criteria = ground arith in
    let kept : score.lines ≡ lines = ground arith in
    (
      omega (arith, bound, total, top),
      top,
      total ∙ ap total_of (sym kept),
      omega (arith, ap length kept, count),
    )

-- A rubric's score lies within its maximum: a tally that is made has one line for each selection, its
-- total is the sum of the points of the lines, its maximum is the sum of each criterion's best level,
-- and the total is at most the maximum, whatever ids the criteria and levels have.
pub compute_rubric_score-le :
    (detail : RubricDetail) (sels : List ScoreSelection) (score : RubricScore)
    → compute_rubric_score detail sels ≡ scored score
    → (score.total ≤ score.max_total)
      × (score.max_total ≡ max_of detail.criteria)
      × (score.total ≡ total_of score.lines)
      × (length score.lines ≡ length sels)
unfolding compute_rubric_score
compute_rubric_score-le detail sels score h = score_picked-le detail sels _ score refl h
