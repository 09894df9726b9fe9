-- ===== src/Tenant/Tests.antt =====
-- Promotions over the memory stores: a port whose data copy fails, and one where every call succeeds.
use lms_saas.Prelude.{
  ◌≢◌, last?, map, ℕ, ◌≡◌, List, ◌⊎◌, inl, inr, arith, ◌++◌, refl, Bool, true, false, Option, none,
  some, [], ◌∷◌, Text, text, text_eq, if◌then◌else◌,
}
use lms_saas.Tenant.Registry.{
  TenantRecord, pool, silo, active, standalone, get_tenant, set_database_ref, set_tier, set_status,
}
use lms_saas.Tenant.Runs.{SagaRun, new_run, start_run, mark_step, mark_status, get_run_by_key}
use lms_saas.Tenant.Saga.{
  Result, returned, thrown, silo_error, SiloPort, PromoteToSiloInput, SagaOutcome,
}
use lms_saas.Tenant.Provisioning.{
  ProvisionTenantResult, TenantStore, ProvisionTenantInput, new_tenant, provisioned,
  provisioned_event, normalize_slug, provision_tenant, provision_parent, provision_plan,
  insert_tenant, get_tenant_by_slug, list_subtree,
}
use lms_saas.Tenant.Provisioning.Subtree.{
  In, Descends, IsDescendant, list_subtree_complete, list_subtree_sound,
}
use lms_saas.Tenant.Provisioning.Slugs.{
  IsUnique, provision_tenant-IsUnique, provision_tenant-get, provision_tenant-outbox,
  apart_from_kind,
}
use lms_saas.Tenant.Saga.Contract.{Catalog}
use lms_saas.Tenant.Saga.Engine.{call, write, ◌>>=◌, promote_to_silo}
use lms_saas.Tenant.Saga.Memory.{World, memory_deps, row_of, run_status, key_is_free}
use lms_saas.Tenant.Saga.Memory.Answers.{Returns, promote-Returns}
use lms_saas.Tenant.Saga.Memory.Contracts.{memory-IsCatalog, memory-IsApart, memory-IsRunStore}
use lms_saas.Tenant.Saga.Atomicity.{promote-rolled_back, promote-succeeded}

abbrev school : TenantRecord
school = record {
  id = text "t1";
  slug = text "school";
  name = text "School";
  kind = standalone;
  parent_id = none;
  tier = pool;
  status = active;
  region = text "eu";
  plan_id = none;
  database_ref = some (text "pool-db");
  subdomain = text "school";
  created_at = text "0";
  updated_at = text "0";
}

abbrev before : World (Unit {0})
before = record { tenants = school ∷ []; runs = []; infra = tt; minted = 0; read = 0 }

abbrev school_row : Catalog
school_row = record { tier = pool; status = active; database_ref = some (text "pool-db") }

abbrev request : PromoteToSiloInput
request = record { tenant_id = text "t1"; idempotency_key = text "key"; region = text "eu" }

abbrev ids : ℕ → Text
ids n = text "run"

abbrev clock : ℕ → Text
clock n = text "now"

-- A port that copies the data or fails to.
abbrev test_port : Bool → SiloPort (Unit {0})
test_port copies = record {
  create_project = λ tenant region w. (returned (text "project"), w);
  create_branch = λ tenant project w. (returned (text "branch", text "silo-db"), w);
  run_migrations = λ target w. (returned tt, w);
  copy_tenant_data = λ tenant target w.
      (if copies then returned tt else thrown (silo_error (text "copy") (text "no space")), w);
  deprovision = λ tenant target w. (returned tt, w);
}

abbrev promoted : Bool → Result SagaOutcome × World (Unit {0})
promoted copies = promote_to_silo (memory_deps (test_port copies) ids clock) request before

-- The answer of a promotion that returned.
abbrev answer_of : Result SagaOutcome → Option SagaOutcome
answer_of (returned o) = some o
answer_of (thrown e) = none

abbrev no_run : SagaRun
no_run = new_run (text "") (text "") (record {
  tenant_id = text "";
  idempotency_key = text "";
  prev_tier = pool;
  prev_database_ref = none;
})

abbrev outcome : Bool → SagaOutcome
outcome copies = elim (answer_of (promoted copies).0) [
  | some o ↦ o
  | none ↦ record { run = no_run; succeeded = false; failed_step = none }
]

promote-rolled_back_example : row_of (text "t1") (promoted false).1 ≡ some school_row
unfolding promote_to_silo call write ◌>>=◌ get_tenant get_run_by_key start_run mark_step mark_status
    set_database_ref set_tier set_status
promote-rolled_back_example =
    promote-rolled_back (memory_deps (test_port false) ids clock) request (row_of (text "t1"))
      run_status key_is_free (memory-IsCatalog (test_port false) ids clock (text "t1"))
      (memory-IsApart (test_port false) ids clock (text "t1"))
      (memory-IsRunStore (test_port false) ids clock (text "t1")) school_row before
      (promoted false).1 (outcome false) refl refl refl refl

promote-succeeded_example :
    (ref : Text) × (row_of (text "t1") (promoted true).1
      ≡ some (record school_row { tier = silo; database_ref = some ref }))
unfolding promote_to_silo call write ◌>>=◌ get_tenant get_run_by_key start_run mark_step mark_status
    set_database_ref set_tier set_status
promote-succeeded_example =
    promote-succeeded (memory_deps (test_port true) ids clock) request (row_of (text "t1"))
      run_status key_is_free (memory-IsCatalog (test_port true) ids clock (text "t1"))
      (memory-IsApart (test_port true) ids clock (text "t1"))
      (memory-IsRunStore (test_port true) ids clock (text "t1")) school_row before (promoted true).1
      (outcome true) refl refl refl refl refl

-- Slugs without blanks and capitals.
abbrev keep : Text → Text
keep s = s

abbrev registry : TenantStore
registry = record { tenants = school ∷ []; outbox = [] }

abbrev annex : ProvisionTenantInput
annex = record {
  slug = text "annex";
  name = text "Annex";
  region = none;
  plan = some (text "core");
  parent_tenant_id = some (text "t1");
}

provision_tenant-IsUnique_example :
    IsUnique keep keep
      (provision_tenant keep keep registry (text "t2") (text "now") annex).1.tenants
unfolding normalize_slug
provision_tenant-IsUnique_example =
    provision_tenant-IsUnique keep keep (λ s. refl) registry (text "t2") (text "now") annex
      (refl, tt)

abbrev annex_tenant : TenantRecord
annex_tenant =
    new_tenant (text "t2") (text "now") (text "annex") annex (some school) (some (text "core"))

provision_tenant-get_example :
    get_tenant_by_slug keep keep
      (provision_tenant keep keep registry (text "t2") (text "now") annex).1.tenants
      (text "annex")
    ≡ some annex_tenant
unfolding provision_tenant normalize_slug provision_parent provision_plan insert_tenant
provision_tenant-get_example =
    provision_tenant-get keep keep (λ s. refl) registry (text "t2") (text "now") (text "annex")
      annex annex_tenant refl refl

abbrev annexed : ProvisionTenantResult × TenantStore
annexed = provision_tenant keep keep registry (text "t2") (text "now") annex

provision_tenant-outbox_example :
    (((t : TenantRecord) → annexed.0 ≢ provisioned t) × (annexed.1 ≡ registry))
    ⊎ ((t : TenantRecord) × (annexed.0 ≡ provisioned t)
        × (last? annexed.1.tenants ≡ some t)
        × (map apart_from_kind annexed.1.tenants
            ≡ map apart_from_kind (school ∷ []) ++ (apart_from_kind t ∷ []))
        × (annexed.1.outbox ≡ [] ++ (provisioned_event t ∷ [])))
provision_tenant-outbox_example =
    provision_tenant-outbox keep keep registry (text "t2") (text "now") annex

-- A district and its school.
abbrev district : List TenantRecord
district = school ∷ annex_tenant ∷ []

annex-Descends : Descends district (text "t1") 1 annex_tenant.id
annex-Descends = (annex_tenant, inr (inl refl), refl, (λ e. ground arith), refl)

list_subtree_complete_example : In annex_tenant (list_subtree district (text "t1"))
list_subtree_complete_example =
    list_subtree_complete district (text "t1") 1 annex_tenant (omega arith) (inr (inl refl))
      annex-Descends

list_subtree_sound_example : In school district × IsDescendant district (text "t1") school.id
unfolding list_subtree
list_subtree_sound_example = list_subtree_sound district (text "t1") school (inl refl)

promote-Returns_example :
    Returns (promote_to_silo (memory_deps (test_port false) ids clock) request before).0
unfolding get_tenant
promote-Returns_example = promote-Returns (test_port false) ids clock request before school refl
