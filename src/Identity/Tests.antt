-- ===== src/Identity/Tests.antt =====
-- A teacher who may manage grades in a school and in what lies below it, granted twice,
-- and a system role that calls try to change.
use lms_saas.Prelude.{ℕ, ◌≡◌, true, List, [], ◌∷◌, Text, text, any, arith}
use lms_saas.Identity.Authz.{Grant, OrgUnitAncestry, check_access, effective_permissions}
use lms_saas.Identity.Rbac.{
  StoredRole, RbacStore, default_permissions, Call, rename, create, set_permissions, delete, run,
}
use lms_saas.Identity.Rbac.Custom.{system_roles, run-system_roles}
use lms_saas.Identity.Authz.Effective.{IsPlain, covers, check_access-effective_permissions}

abbrev grant : Text → Grant
grant role = record {
  role_id = role;
  role_name = role;
  permission = text "grades:manage";
  org_unit_id = text "school";
  cascade = true;
}

abbrev grants : List Grant
grants = grant (text "teacher") ∷ grant (text "examiner") ∷ []

abbrev course : OrgUnitAncestry
course = record { id = text "course"; path = text "school" ∷ [] }

plain : IsPlain (grant (text "teacher"))
plain = ground arith

check_access-effective_permissions_example :
    (check_access grants (text "grades:manage") course).allowed
    ≡ any (covers (text "grades:manage") course) (effective_permissions grants)
check_access-effective_permissions_example =
    check_access-effective_permissions grants (text "grades:manage") course (plain, (plain, tt))

abbrev ids : ℕ → Text
ids n = text "role"

abbrev admin : StoredRole
admin = record {
  id = text "admin";
  tenant_id = text "t";
  name = text "Admin";
  is_system = true;
  permissions = text "users:manage" ∷ [];
}

abbrev roles : RbacStore
roles = record { roles = admin ∷ []; events = []; catalog = default_permissions; minted = 0 }

abbrev calls : List Call
calls =
    rename (text "t") (text "admin") (text "Owner")
    ∷ create (text "t") (text "Tutor")
    ∷ set_permissions (text "t") (text "role") (text "grades:manage" ∷ [])
    ∷ delete (text "t") (text "admin")
    ∷ []

run-system_roles_example : system_roles (run ids roles calls) ≡ system_roles roles
run-system_roles_example = run-system_roles ids roles calls
