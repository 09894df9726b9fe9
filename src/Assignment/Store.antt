-- ===== src/Assignment/Store.antt =====
-- Assignments and submissions: services/assignment/src/store.ts and store.memory.ts. `ids` and `clock`
-- are what `generateId` and `now().toISOString()` return, call by call; `later now due` is
-- `now > new Date(due)`. Points are whole and not negative.
use lms_saas.Prelude.{
  ℕ, suc, Bool, true, false, not, ◌&&◌, Option, none, some, List, [], ◌∷◌, ◌++◌, Text, text_eq,
  ◌==◌, find, filter, any, update_first, if◌then◌else◌,
}

pub data SubmissionType : Type 0 where
  file written url nothing : SubmissionType

pub data SubmissionStatus : Type 0 where
  draft submitted returned resubmitted : SubmissionStatus

pub record AssignmentRecord : Type 0 where
  pub id : Text
  pub tenant_id : Text
  pub course_id : Text
  pub title : Text
  pub instructions : Option Text
  pub due_at : Option Text
  pub points : ℕ
  pub submission_type : SubmissionType
  pub allow_late : Bool
  pub created_at : Text

pub record SubmissionRecord : Type 0 where
  pub id : Text
  pub tenant_id : Text
  pub assignment_id : Text
  pub user_id : Text
  pub body : Option Text
  pub blob_url : Option Text
  pub status : SubmissionStatus
  pub submitted_at : Text
  pub is_late : Bool

pub record NewAssignmentInput : Type 0 where
  pub course_id : Text
  pub title : Text
  pub instructions : Option Text
  pub due_at : Option Text
  pub points : Option ℕ
  pub submission_type : Option SubmissionType
  pub allow_late : Option Bool

pub record NewSubmissionInput : Type 0 where
  pub user_id : Text
  pub body : Option Text
  pub blob_url : Option Text

-- A field that is absent is `none`; one that may be cleared is an option of an option.
pub record UpdateAssignmentInput : Type 0 where
  pub title : Option Text
  pub instructions : Option (Option Text)
  pub due_at : Option (Option Text)
  pub points : Option ℕ
  pub submission_type : Option SubmissionType
  pub allow_late : Option Bool

-- A submission and whether it replaces another.
pub data SubmitResult : Type 0 where
  handed_in : SubmissionRecord → Bool → SubmitResult
  unknown_assignment late_not_allowed : SubmitResult

-- MemoryAssignmentStore, and how often the id source and the clock were read.
pub record AssignmentStore : Type 0 where
  pub assignments : List AssignmentRecord
  pub submissions : List SubmissionRecord
  pub minted : ℕ
  pub times : ℕ

abbrev or_else {ℓ} : {A : Type ℓ} → Option A → A → A
or_else none fallback = fallback
or_else (some a) fallback = a

abbrev pub is_assignment : Text → Text → AssignmentRecord → Bool
is_assignment tenant id a = (a.id == id) && (a.tenant_id == tenant)

abbrev is_submission : Text → Text → SubmissionRecord → Bool
is_submission tenant id r = (r.id == id) && (r.tenant_id == tenant)

abbrev pub is_by : Text → Text → Text → SubmissionRecord → Bool
is_by tenant assignment_id user r =
    (r.tenant_id == tenant) && (r.assignment_id == assignment_id) && (r.user_id == user)

-- getAssignment
unfoldable pub get_assignment : AssignmentStore → Text → Text → Option AssignmentRecord
get_assignment s tenant id = find (is_assignment tenant id) s.assignments

-- listAssignments
unfoldable pub list_assignments : AssignmentStore → Text → Text → List AssignmentRecord
list_assignments s tenant course_id =
    filter (λ a. (a.tenant_id == tenant) && (a.course_id == course_id)) s.assignments

-- listSubmissions
unfoldable pub list_submissions : AssignmentStore → Text → Text → List SubmissionRecord
list_submissions s tenant assignment_id =
    filter (λ r. (r.tenant_id == tenant) && (r.assignment_id == assignment_id)) s.submissions

-- getSubmission
unfoldable pub get_submission : AssignmentStore → Text → Text → Option SubmissionRecord
get_submission s tenant id = find (is_submission tenant id) s.submissions

abbrev updated : UpdateAssignmentInput → AssignmentRecord → AssignmentRecord
updated i a = record a {
  title = or_else i.title a.title;
  instructions = or_else i.instructions a.instructions;
  due_at = or_else i.due_at a.due_at;
  points = or_else i.points a.points;
  submission_type = or_else i.submission_type a.submission_type;
  allow_late = or_else i.allow_late a.allow_late;
}

-- updateAssignment
unfoldable pub update_assignment :
    AssignmentStore
    → Text
    → Text
    → UpdateAssignmentInput
    → Option AssignmentRecord × AssignmentStore
update_assignment s tenant id i = elim (find (is_assignment tenant id) s.assignments) [
  | none ↦ (none, s)
  | some a ↦ (
    some (updated i a),
    record s { assignments = update_first (is_assignment tenant id) (updated i) s.assignments },
  )
]

abbrev remove_first : Text → Text → List AssignmentRecord → List AssignmentRecord
remove_first tenant id [] = []
remove_first tenant id (a ∷ rest) =
    if is_assignment tenant id a then rest else a ∷ remove_first tenant id rest

-- deleteAssignment
unfoldable pub delete_assignment : AssignmentStore → Text → Text → Bool × AssignmentStore
delete_assignment s tenant id =
    if not (any (is_assignment tenant id) s.assignments) then (false, s) else (
      true,
      record s {
        assignments = remove_first tenant id s.assignments;
        submissions = filter (λ r. not (r.assignment_id == id)) s.submissions;
      },
    )

abbrev sent_back : SubmissionRecord → SubmissionRecord
sent_back r = record r { status = returned }

-- returnSubmission
unfoldable pub return_submission :
    AssignmentStore → Text → Text → Option SubmissionRecord × AssignmentStore
return_submission s tenant id = elim (find (is_submission tenant id) s.submissions) [
  | none ↦ (none, s)
  | some r ↦ (
    some (sent_back r),
    record s { submissions = update_first (is_submission tenant id) sent_back s.submissions },
  )
]

abbrev pub is_past : (Text → Text → Bool) → Text → Option Text → Bool
is_past later now none = false
is_past later now (some due) = later now due

module _ (ids clock : ℕ → Text) (later : Text → Text → Bool) where
  -- createAssignment
  unfoldable pub create_assignment :
      AssignmentStore → Text → NewAssignmentInput → AssignmentRecord × AssignmentStore
  create_assignment s tenant i =
      let a : AssignmentRecord = record {
        id = ids s.minted;
        tenant_id = tenant;
        course_id = i.course_id;
        title = i.title;
        instructions = i.instructions;
        due_at = i.due_at;
        points = or_else i.points 100;
        submission_type = or_else i.submission_type file;
        allow_late = or_else i.allow_late true;
        created_at = clock s.times;
      } in
      (
        a,
        record s {
          assignments = s.assignments ++ (a ∷ []);
          minted = suc s.minted;
          times = suc s.times;
        },
      )

  abbrev pub again : NewSubmissionInput → Text → Bool → SubmissionRecord → SubmissionRecord
  again i now late r = record r {
    body = i.body;
    blob_url = i.blob_url;
    status = resubmitted;
    submitted_at = now;
    is_late = late;
  }

  abbrev pub new_submission :
      Text → Text → Text → NewSubmissionInput → Text → Bool → SubmissionRecord
  new_submission id tenant assignment_id i now late = record {
    id = id;
    tenant_id = tenant;
    assignment_id = assignment_id;
    user_id = i.user_id;
    body = i.body;
    blob_url = i.blob_url;
    status = submitted;
    submitted_at = now;
    is_late = late;
  }

  -- The writes of `submit`, once the policy allows them; the clock was read for `now`.
  abbrev pub hand_in :
      AssignmentStore
      → Text
      → Text
      → NewSubmissionInput
      → Bool
      → Option SubmissionRecord
      → SubmitResult × AssignmentStore
  hand_in s tenant assignment_id i late (some existing) =
      let now = clock s.times in
      (
        handed_in (again i now late existing) true,
        record s {
          submissions =
              update_first (is_by tenant assignment_id i.user_id) (again i now late) s.submissions;
          times = suc s.times;
        },
      )
  hand_in s tenant assignment_id i late none =
      let r = new_submission (ids s.minted) tenant assignment_id i (clock s.times) late in
      (
        handed_in r false,
        record s {
          submissions = s.submissions ++ (r ∷ []);
          minted = suc s.minted;
          times = suc s.times;
        },
      )

  abbrev pub submit_found :
      AssignmentStore
      → Text
      → Text
      → NewSubmissionInput
      → Option AssignmentRecord
      → SubmitResult × AssignmentStore
  submit_found s tenant assignment_id i none = (unknown_assignment, s)
  submit_found s tenant assignment_id i (some a) =
      let late = is_past later (clock s.times) a.due_at in
      if late && not a.allow_late
      then (late_not_allowed, record s { times = suc s.times })
      else (hand_in s tenant assignment_id i late
          (find (is_by tenant assignment_id i.user_id) s.submissions))

  -- submit
  unfoldable pub submit :
      AssignmentStore → Text → Text → NewSubmissionInput → SubmitResult × AssignmentStore
  submit s tenant assignment_id i =
      submit_found s tenant assignment_id i
        (find (is_assignment tenant assignment_id) s.assignments)
