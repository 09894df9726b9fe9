-- ===== src/Enrollment/Store.antt =====
-- services/enrollment/src/store.memory.ts, with the types of store.ts. The results of the injected
-- `generateId` and `now` are arguments of the call that uses them.
pub mod Laws
use lms_saas.Prelude.{
  Bool, true, false, not, ◌&&◌, Option, none, some, List, [], ◌∷◌, ◌++◌, Text, text, text_eq, ◌==◌,
  eq_iff, arith, ◌≡◌, refl, if◌then◌else◌, find, filter, any, update_first, Equality, ◌↔◌,
}

pub data EnrollmentStatus : Type 0 where
  active inactive completed withdrawn : EnrollmentStatus

abbrev pub is_active : EnrollmentStatus → Bool
is_active active = true
is_active _ = false

pub record EnrollmentRecord : Type 0 where
  pub id : Text
  pub tenant_id : Text
  pub user_id : Text
  pub org_unit_id : Text
  pub role : Text
  pub status : EnrollmentStatus
  pub enrolled_at : Text
  pub display_name : Option Text
  pub email : Option Text

pub record NewEnrollmentInput : Type 0 where
  pub user_id : Text
  pub org_unit_id : Text
  pub role : Text

pub data CreateEnrollmentResult : Type 0 where
  created : EnrollmentRecord → CreateEnrollmentResult
  already_enrolled unknown_role : CreateEnrollmentResult

pub data UpdateEnrollmentResult : Type 0 where
  updated : EnrollmentRecord → UpdateEnrollmentResult
  not_found unknown_role : UpdateEnrollmentResult

-- KNOWN_ROLES
abbrev pub known_roles : List Text
known_roles =
    text "learner"
    ∷ text "instructor"
    ∷ text "teaching_assistant"
    ∷ text "course_builder"
    ∷ text "observer"
    ∷ text "org_admin"
    ∷ []

-- `roles.includes(role)`
abbrev pub includes : List Text → Text → Bool
includes roles role = any (λ r. r == role) roles

abbrev pub in_seat : Text → Text → Text → EnrollmentRecord → Bool
in_seat tenant user org e =
    (e.tenant_id == tenant) && ((e.user_id == user) && (e.org_unit_id == org))

abbrev pub with_id : Text → Text → EnrollmentRecord → Bool
with_id tenant id e = (e.id == id) && (e.tenant_id == tenant)

abbrev pub new_record : Text → Text → Text → NewEnrollmentInput → EnrollmentRecord
new_record id now tenant i = record {
  id = id;
  tenant_id = tenant;
  user_id = i.user_id;
  org_unit_id = i.org_unit_id;
  role = i.role;
  status = active;
  enrolled_at = now;
  display_name = none;
  email = none;
}

module _ (roles : List Text) where
  -- createEnrollment
  unfoldable pub create_enrollment :
      List EnrollmentRecord
      → Text
      → Text
      → Text
      → NewEnrollmentInput
      → CreateEnrollmentResult × List EnrollmentRecord
  create_enrollment es id now tenant i =
      if not (includes roles i.role)
      then (CreateEnrollmentResult.unknown_role, es)
      else if any (in_seat tenant i.user_id i.org_unit_id) es
      then (already_enrolled, es)
      else (let e = new_record id now tenant i in (created e, es ++ (e ∷ [])))

  role_found :
      Option EnrollmentRecord
      → List EnrollmentRecord
      → Text
      → Text
      → Text
      → UpdateEnrollmentResult × List EnrollmentRecord
  role_found none es tenant id role = (not_found, es)
  role_found (some e) es tenant id role = (
    updated (record e { role = role }),
    update_first (with_id tenant id) (λ x. record x { role = role }) es,
  )

  -- updateEnrollmentRole
  unfoldable pub update_enrollment_role :
      List EnrollmentRecord → Text → Text → Text → UpdateEnrollmentResult × List EnrollmentRecord
  unfolding role_found
  update_enrollment_role es tenant id role =
      if not (includes roles role)
      then (UpdateEnrollmentResult.unknown_role, es)
      else role_found (find (with_id tenant id) es) es tenant id role

-- getEnrollment
unfoldable pub get_enrollment : List EnrollmentRecord → Text → Text → Option EnrollmentRecord
get_enrollment es tenant id = find (with_id tenant id) es

abbrev pub with_status : EnrollmentStatus → EnrollmentRecord → EnrollmentRecord
with_status status e = record e { status = status }

transition_found :
    Option EnrollmentRecord
    → List EnrollmentRecord
    → Text
    → Text
    → EnrollmentStatus
    → Option EnrollmentRecord × List EnrollmentRecord
transition_found none es tenant id status = (none, es)
transition_found (some e) es tenant id status =
    (some (with_status status e), update_first (with_id tenant id) (with_status status) es)

-- transition
unfoldable pub transition :
    List EnrollmentRecord
    → Text
    → Text
    → EnrollmentStatus
    → Option EnrollmentRecord × List EnrollmentRecord
unfolding transition_found
transition es tenant id status = transition_found (find (with_id tenant id) es) es tenant id status

-- dropEnrollment and completeEnrollment
unfoldable pub drop_enrollment :
    List EnrollmentRecord → Text → Text → Option EnrollmentRecord × List EnrollmentRecord
unfolding transition
drop_enrollment es tenant id = transition es tenant id withdrawn

unfoldable pub complete_enrollment :
    List EnrollmentRecord → Text → Text → Option EnrollmentRecord × List EnrollmentRecord
unfolding transition
complete_enrollment es tenant id = transition es tenant id completed

-- getRoster
unfoldable pub get_roster : List EnrollmentRecord → Text → Text → List EnrollmentRecord
get_roster es tenant org =
    filter (λ e. (e.tenant_id == tenant) && ((e.org_unit_id == org) && is_active e.status)) es

-- listForUser
unfoldable pub list_for_user : List EnrollmentRecord → Text → Text → List EnrollmentRecord
list_for_user es tenant user = filter (λ e. (e.tenant_id == tenant) && (e.user_id == user)) es

-- One mutating call of the store.
pub data Call : Type 0 where
  create : Text → Text → NewEnrollmentInput → Call
  drop complete : Text → Call
  set_role : Text → Text → Call

unfoldable pub step : List Text → Text → List EnrollmentRecord → Call → List EnrollmentRecord
unfolding create_enrollment drop_enrollment complete_enrollment update_enrollment_role
step roles tenant es (create id now i) = (create_enrollment roles es id now tenant i).1
step roles tenant es (drop id) = (drop_enrollment es tenant id).1
step roles tenant es (complete id) = (complete_enrollment es tenant id).1
step roles tenant es (set_role id role) = (update_enrollment_role roles es tenant id role).1

-- A history of calls, each with the tenant of its context.
unfoldable pub run : List Text → List EnrollmentRecord → List (Text × Call) → List EnrollmentRecord
unfolding step
run roles es [] = es
run roles es ((tenant, c) ∷ cs) = run roles (step roles tenant es c) cs
