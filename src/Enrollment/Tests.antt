-- ===== src/Enrollment/Tests.antt =====
-- Runs of the two enrollment stores on a small district.
use lms_saas.Prelude.{
  ◌≡◌, ◌≢◌, refl, true, false, none, some, List, [], ◌∷◌, Text, text, text_eq, arith, inl,
}
use lms_saas.Enrollment.SelfReg.{
  Policy, RegistrationRequest, SelfRegStore, Call, register, rule_on, approve, deny, pending,
  section_prefix, policy_of, active_count, not_pending, decide, run,
}
use lms_saas.Enrollment.SelfReg.Capacity.{IsWithin, run-IsWithin}
use lms_saas.Enrollment.SelfReg.Decisions.{IsConsistent, run-IsConsistent}
use lms_saas.Enrollment.SelfReg.Settled.{decide-once}
use lms_saas.Enrollment.Store
use lms_saas.Enrollment.Store.{
  EnrollmentRecord, known_roles, active, withdrawn, create, drop, set_role, get_enrollment,
  drop_enrollment,
}
use lms_saas.Enrollment.Store.Laws.{IsUnique, run-IsUnique, rows_of, run-isolates_tenants}

-- Section s1 of tenant t has one seat left of two; bob waits for approval.
abbrev one_left : Policy
one_left = record {
  tenant_id = text "t";
  org_unit_id = text "s1";
  is_open = true;
  requires_approval = false;
  capacity = some 2;
}

abbrev bob : RegistrationRequest
bob = record {
  id = text "r1";
  tenant_id = text "t";
  org_unit_id = text "s1";
  user_id = text "bob";
  status = pending;
  created_at = [];
  decided_at = none;
  decided_by = none;
}

abbrev queue : SelfRegStore
queue = record { policies = one_left ∷ []; requests = bob ∷ []; enrolled = text "t:s1:ada" ∷ [] }

abbrev rush : List Call
rush =
    register (text "r2") (text "t") (text "s1") (text "cy")
    ∷ rule_on (text "t") (text "r1") approve none
    ∷ register (text "r3") (text "t") (text "s1") (text "dee")
    ∷ []

queue-IsWithin : IsWithin (text "t") (text "s1") one_left 2 queue
unfolding policy_of active_count section_prefix
queue-IsWithin = record {
  ruled = refl;
  capped = refl;
  seated = omega arith;
  plain = omega arith;
  plain_tenant = omega arith;
  plain_org = omega arith;
}

run-IsWithin_example : IsWithin (text "t") (text "s1") one_left 2 (run queue rush)
run-IsWithin_example =
    run-IsWithin (text "t") (text "s1") one_left 2 queue rush (omega arith) queue-IsWithin

rush_fills : (run queue rush).enrolled ≡ text "t:s1:ada" ∷ text "t:s1:cy" ∷ []
unfolding run
rush_fills = refl

run-IsConsistent_example : IsConsistent (run queue rush)
run-IsConsistent_example = run-IsConsistent queue rush (inl refl, tt)

abbrev full_queue : SelfRegStore
full_queue = record queue { enrolled = text "t:s1:ada" ∷ text "t:s1:eve" ∷ [] }

abbrev approved_bob : SelfRegStore
approved_bob = (decide queue (text "t") (text "r1") approve none).1

abbrev later_calls : List Call
later_calls =
    register (text "r2") (text "t") (text "s1") (text "cy")
    ∷ rule_on (text "t") (text "r1") deny none
    ∷ []

decide-once_example :
    decide (run approved_bob later_calls) (text "t") (text "r1") deny (some (text "dean"))
    ≡ (not_pending, run approved_bob later_calls)
unfolding decide
decide-once_example =
    decide-once queue (text "t") (text "r1") approve deny none (some (text "dean")) bob later_calls
      refl refl (refl, (tt, tt))

abbrev ada : EnrollmentRecord
ada = record {
  id = text "e1";
  tenant_id = text "t";
  user_id = text "ada";
  org_unit_id = text "s1";
  role = text "learner";
  status = active;
  enrolled_at = [];
  display_name = none;
  email = none;
}

abbrev term : List (Text × Store.Call)
term =
    (
      text "t",
      create (text "e2") []
          (record { user_id = text "bob"; org_unit_id = text "s1"; role = text "observer" }),
    )
    ∷ (
      text "t",
      create (text "e3") []
          (record { user_id = text "ada"; org_unit_id = text "s1"; role = text "learner" }),
    )
    ∷ (text "t", set_role (text "e1") (text "org_admin"))
    ∷ (text "t", drop (text "e1"))
    ∷ []

run-IsUnique_example : IsUnique (Store.run known_roles (ada ∷ []) term)
run-IsUnique_example = run-IsUnique known_roles (ada ∷ []) term (refl, tt)

t_ne_u : ◌≢◌ {A = Text} (text "t") (text "u")
t_ne_u = ground arith

run-isolates_tenants_example : rows_of (text "u") (Store.run known_roles (ada ∷ []) term) ≡ []
run-isolates_tenants_example =
    run-isolates_tenants known_roles (ada ∷ []) term (text "u")
      (t_ne_u, (t_ne_u, (t_ne_u, (t_ne_u, tt))))
