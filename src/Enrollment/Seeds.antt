-- ===== src/Enrollment/Seeds.antt =====
-- The demo enrollments of services/enrollment/src/store.memory.ts.
use lms_saas.Prelude.{Option, none, some, List, [], ◌∷◌, ◌++◌, Text, text, refl}
use lms_saas.Enrollment.Store.{EnrollmentRecord, EnrollmentStatus, active}
use lms_saas.Enrollment.Store.Laws.{IsUnique}

abbrev pub demo_tenant_id : Text
demo_tenant_id = text "11111111-1111-1111-1111-111111111111"

-- SeedEnrollment: a name or an email that is left out is `none`.
pub record SeedEnrollment : Type 0 where
  pub id : Text
  pub tenant_id : Text
  pub user_id : Text
  pub org_unit_id : Text
  pub role : Text
  pub status : EnrollmentStatus
  pub enrolled_at : Text
  pub display_name : Option Text
  pub email : Option Text

-- seed
abbrev pub seed : List EnrollmentRecord → SeedEnrollment → List EnrollmentRecord
seed es s =
    es
    ++ (record {
      id = s.id;
      tenant_id = s.tenant_id;
      user_id = s.user_id;
      org_unit_id = s.org_unit_id;
      role = s.role;
      status = s.status;
      enrolled_at = s.enrolled_at;
      display_name = s.display_name;
      email = s.email;
    }
        ∷ [])

abbrev demo : Text → Text → Text → Text → Text → Option Text → Option Text → SeedEnrollment
demo id user org role at name email = record {
  id = id;
  tenant_id = demo_tenant_id;
  user_id = user;
  org_unit_id = org;
  role = role;
  status = active;
  enrolled_at = at;
  display_name = name;
  email = email;
}

-- createSeededMemoryStore
abbrev pub seeded_enrollments : List EnrollmentRecord
seeded_enrollments =
    seed
      (seed
        (seed
          (seed [] (
            demo (text "demo-enrollment-1") (text "demo-student") (text "demo-section")
              (text "learner") (text "2026-01-01T00:00:00.000Z") none none))
          (demo (text "demo-alg-enr-1") (text "ada.lovelace") (text "alg-101") (text "learner")
            (text "2026-01-05T00:00:00.000Z") (some (text "Ada Lovelace"))
            (some (text "ada.lovelace@demo.edu"))))
        (demo (text "demo-alg-enr-2") (text "alan.turing") (text "alg-101") (text "learner")
          (text "2026-01-06T00:00:00.000Z") (some (text "Alan Turing"))
          (some (text "alan.turing@demo.edu"))))
      (demo (text "demo-alg-enr-3") (text "grace.hopper") (text "alg-101")
        (text "teaching_assistant") (text "2026-01-07T00:00:00.000Z") (some (text "Grace Hopper"))
        (some (text "grace.hopper@demo.edu")))

seeded-IsUnique : IsUnique seeded_enrollments
seeded-IsUnique = (refl, (refl, (refl, (refl, tt))))
