-- ===== src/Enrollment/Store/Laws.antt =====
-- The invariants of the enrollment table and the separation of its tenants.
use lms_saas.Prelude.{
  ◌≡◌, ◌≢◌, refl, ◌∙◌, Bool, true, false, not, Option, none, some, List, [], ◌∷◌, ◌++◌, Text,
  text_eq, ◌==◌, eq_iff, eq_ne, arith, if_case, find, find-update_first, find-holds, filter,
  filter-append, filter-update_first_apart, any, any-append, any-update_first, update_first,
  update_first-All, All, All-append, append-nil,
}
use lms_saas.Enrollment.Store.{
  EnrollmentRecord, NewEnrollmentInput, EnrollmentStatus, completed, withdrawn,
  CreateEnrollmentResult, UpdateEnrollmentResult, includes, in_seat, with_id, new_record,
  role_found, update_enrollment_role, get_enrollment, with_status, transition_found, transition,
  drop_enrollment, Call, create, drop, complete, set_role, step, run,
}

-- No two enrollments put one user of a tenant into one section twice.
abbrev pub IsUnique : List EnrollmentRecord → Type 0
IsUnique [] = Unit
IsUnique (e ∷ es) = (any (in_seat e.tenant_id e.user_id e.org_unit_id) es ≡ false) × IsUnique es

in_seat_symm :
    (e : EnrollmentRecord) (tenant user org : Text) (x : EnrollmentRecord)
    → (x.tenant_id ≡ tenant) × (x.user_id ≡ user) × (x.org_unit_id ≡ org)
    → in_seat tenant user org e ≡ false
    → in_seat e.tenant_id e.user_id e.org_unit_id x ≡ false
in_seat_symm e tenant user org x same h = ground (
  arith,
  eq_iff e.tenant_id tenant,
  eq_iff e.user_id user,
  eq_iff e.org_unit_id org,
  eq_iff x.tenant_id e.tenant_id,
  eq_iff x.user_id e.user_id,
  eq_iff x.org_unit_id e.org_unit_id,
)

append-IsUnique :
    (es : List EnrollmentRecord) (id now tenant : Text) (i : NewEnrollmentInput)
    → IsUnique es
    → any (in_seat tenant i.user_id i.org_unit_id) es ≡ false
    → IsUnique (es ++ (new_record id now tenant i ∷ []))
append-IsUnique [] id now tenant i u h = (refl, tt)
append-IsUnique (e ∷ es) id now tenant i u h = (
  ground (
    arith,
    any-append (in_seat e.tenant_id e.user_id e.org_unit_id) es (new_record id now tenant i ∷ []),
    in_seat_symm e tenant i.user_id i.org_unit_id (new_record id now tenant i) (refl, refl, refl),
  ),
  append-IsUnique es id now tenant i u.1 (ground arith),
)

-- A change of one record that keeps its identity, its seat and the validity of its role.
record IsTame (roles : List Text) (f : EnrollmentRecord → EnrollmentRecord) : Type 0 where
  same_id : (e : EnrollmentRecord) → (f e).id ≡ e.id
  same_tenant : (e : EnrollmentRecord) → (f e).tenant_id ≡ e.tenant_id
  same_user : (e : EnrollmentRecord) → (f e).user_id ≡ e.user_id
  same_org : (e : EnrollmentRecord) → (f e).org_unit_id ≡ e.org_unit_id
  known : (e : EnrollmentRecord) → includes roles e.role ≡ true → includes roles (f e).role ≡ true

status-IsTame : (roles : List Text) (status : EnrollmentStatus) → IsTame roles (with_status status)
status-IsTame roles status = record {
  same_id = λ e. refl;
  same_tenant = λ e. refl;
  same_user = λ e. refl;
  same_org = λ e. refl;
  known = λ e h. h;
}

role-IsTame :
    (roles : List Text) (role : Text)
    → includes roles role ≡ true
    → IsTame roles (λ x. record x { role = role })
role-IsTame roles role h = record {
  same_id = λ e. refl;
  same_tenant = λ e. refl;
  same_user = λ e. refl;
  same_org = λ e. refl;
  known = λ e _. h;
}

-- The three things that a call can do to the table.
module _ (P : List EnrollmentRecord → Type 0) (roles : List Text) (tenant : Text)
    (es : List EnrollmentRecord) (unchanged : P es)
    (appended : (id now : Text) (i : NewEnrollmentInput)
      → includes roles i.role ≡ true
      → any (in_seat tenant i.user_id i.org_unit_id) es ≡ false
      → P (es ++ (new_record id now tenant i ∷ [])))
    (changed : (id : Text) (f : EnrollmentRecord → EnrollmentRecord)
      → IsTame roles f
      → P (update_first (with_id tenant id) f es)) where
  transition_cases :
      (o : Option EnrollmentRecord) (id : Text) (status : EnrollmentStatus)
      → P (transition_found o es tenant id status).1
  unfolding transition
  transition_cases none id status = unchanged
  transition_cases (some e) id status = changed id (with_status status) (status-IsTame roles status)

  role_cases :
      (o : Option EnrollmentRecord) (id role : Text)
      → includes roles role ≡ true
      → P (role_found roles o es tenant id role).1
  unfolding update_enrollment_role
  role_cases none id role h = unchanged
  role_cases (some e) id role h = changed id _ (role-IsTame roles role h)

  step_cases : (c : Call) → P (step roles tenant es c)
  unfolding step
  step_cases (create id now i) =
      if_case (λ (r : CreateEnrollmentResult × List EnrollmentRecord). P r.1)
        (not (includes roles i.role)) _ _ (λ _. unchanged)
        λ known.
          if_case (λ (r : CreateEnrollmentResult × List EnrollmentRecord). P r.1)
            (any (in_seat tenant i.user_id i.org_unit_id) es) _ _ (λ _. unchanged)
            λ new. appended id now i (ground arith) new
  step_cases (drop id) = transition_cases (find (with_id tenant id) es) id withdrawn
  step_cases (complete id) = transition_cases (find (with_id tenant id) es) id completed
  step_cases (set_role id role) =
      if_case (λ (r : UpdateEnrollmentResult × List EnrollmentRecord). P r.1)
        (not (includes roles role)) _ _ (λ _. unchanged)
        λ known. role_cases (find (with_id tenant id) es) id role (ground arith)

update_first-IsUnique :
    (roles : List Text) (p : EnrollmentRecord → Bool) (f : EnrollmentRecord → EnrollmentRecord)
    (es : List EnrollmentRecord)
    → IsTame roles f
    → IsUnique es
    → IsUnique (update_first p f es)
update_first-IsUnique roles p f [] t u = tt
update_first-IsUnique roles p f (e ∷ es) t u =
    if_case IsUnique (p e) _ _ (λ _. (rw (t.same_tenant e, t.same_user e, t.same_org e) u.0, u.1))
      λ _. (
        any-update_first p (in_seat e.tenant_id e.user_id e.org_unit_id) f es
              (λ a. rw (t.same_tenant a, t.same_user a, t.same_org a))
            ∙ u.0,
        update_first-IsUnique roles p f es t u.1,
      )

step-IsUnique :
    (roles : List Text) (tenant : Text) (es : List EnrollmentRecord) (c : Call)
    → IsUnique es
    → IsUnique (step roles tenant es c)
step-IsUnique roles tenant es c u =
    step_cases IsUnique roles tenant es u
      (λ id now i _ new. append-IsUnique es id now tenant i u new)
      (λ id f t. update_first-IsUnique roles (with_id tenant id) f es t u) c

-- No history of calls, of any tenants, gives a user two rows in one section of a tenant, if none
-- has two at the start.
pub run-IsUnique :
    (roles : List Text) (es : List EnrollmentRecord) (cs : List (Text × Call))
    → IsUnique es
    → IsUnique (run roles es cs)
unfolding run
run-IsUnique roles es [] u = u
run-IsUnique roles es ((tenant, c) ∷ cs) u =
    run-IsUnique roles (step roles tenant es c) cs (step-IsUnique roles tenant es c u)

abbrev pub HasKnownRole : List Text → EnrollmentRecord → Type 0
HasKnownRole roles e = includes roles e.role ≡ true

step-HasKnownRole :
    (roles : List Text) (tenant : Text) (es : List EnrollmentRecord) (c : Call)
    → All (HasKnownRole roles) es
    → All (HasKnownRole roles) (step roles tenant es c)
step-HasKnownRole roles tenant es c all =
    step_cases (All (HasKnownRole roles)) roles tenant es all
      (λ id now i h _. All-append (HasKnownRole roles) es _ all (h, tt))
      (λ id f t.
        update_first-All (HasKnownRole roles) (with_id tenant id) f es (λ e h _. t.known e h) all)
      c

-- Through any history of calls every row keeps a role that the store knows, if all have one at the
-- start.
pub run-HasKnownRole :
    (roles : List Text) (es : List EnrollmentRecord) (cs : List (Text × Call))
    → All (HasKnownRole roles) es
    → All (HasKnownRole roles) (run roles es cs)
unfolding run
run-HasKnownRole roles es [] all = all
run-HasKnownRole roles es ((tenant, c) ∷ cs) all =
    run-HasKnownRole roles (step roles tenant es c) cs (step-HasKnownRole roles tenant es c all)

-- The rows that row-level security shows to a tenant.
abbrev pub rows_of : Text → List EnrollmentRecord → List EnrollmentRecord
rows_of tenant es = filter (λ e. e.tenant_id == tenant) es

step-rows_of :
    (roles : List Text) (tenant other : Text) (es : List EnrollmentRecord) (c : Call)
    → tenant ≢ other
    → rows_of other (step roles tenant es c) ≡ rows_of other es
step-rows_of roles tenant other es c ne =
    step_cases (λ es'. rows_of other es' ≡ rows_of other es) roles tenant es refl
      (λ id now i _ _. ground (
        arith,
        filter-append (λ e. e.tenant_id == other) es (new_record id now tenant i ∷ []),
        eq_ne tenant other ne,
        append-nil (rows_of other es),
      ))
      (λ id f t.
        filter-update_first_apart (with_id tenant id) (λ e. e.tenant_id == other) f es
          λ a h.
            ground (arith, eq_iff a.tenant_id tenant, eq_iff a.tenant_id other, t.same_tenant a))
      c

abbrev pub IsForeign : Text → Text × Call → Type 0
IsForeign other (tenant, c) = tenant ≢ other

-- A tenant's rows are its own: calls under other tenants, in any number, leave them unchanged.
pub run-isolates_tenants :
    (roles : List Text) (es : List EnrollmentRecord) (cs : List (Text × Call)) (other : Text)
    → All (IsForeign other) cs
    → rows_of other (run roles es cs) ≡ rows_of other es
unfolding run
run-isolates_tenants roles es [] other h = refl
run-isolates_tenants roles es ((tenant, c) ∷ cs) other h =
    run-isolates_tenants roles (step roles tenant es c) cs other h.1
    ∙ step-rows_of roles tenant other es c h.0

-- A dropped enrollment is found withdrawn afterwards, with all its other fields as before.
pub drop-get :
    (es : List EnrollmentRecord) (tenant id : Text) (e : EnrollmentRecord)
    → get_enrollment es tenant id ≡ some e
    → let r = drop_enrollment es tenant id in
      (r.0 ≡ some (record e { status = withdrawn }))
      × (get_enrollment r.1 tenant id ≡ some (record e { status = withdrawn }))
unfolding get_enrollment drop_enrollment
drop-get es tenant id e h = ground (
  arith,
  find-update_first (with_id tenant id) (with_status withdrawn) es e h,
  find-holds (with_id tenant id) es e h,
)
