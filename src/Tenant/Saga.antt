-- ===== src/Tenant/Saga.antt =====
-- The promotion engine of services/tenant/src/silo.saga.ts, with the port of silo.ts. It runs over
-- any stores and any port, given as the operations of a record; a call returns or throws, and
-- either way hands back the world it leaves.
pub mod Engine
pub mod Contract
pub mod Steps
pub mod Recovery
pub mod Atomicity
pub mod Memory
use lms_saas.Prelude.{
  Bool, true, false, ◌≡◌, refl, Option, none, some, List, [], ◌∷◌, ◌++◌, Text, text, if◌then◌else◌,
}
use lms_saas.Tenant.Registry.{TenantRecord, TenantTier, silo, TenantStatus, active}
use lms_saas.Tenant.Registry
use lms_saas.Tenant.Runs.{
  SagaStep, provision, migrate, copy, repoint, flip, SagaStatus, provisioning, migrating, copying,
  repointing, flipping, completed, rolled_back, compensation_failed, SagaRun, StartRunInput,
  StepPatch, MarkOptions,
}

-- A `SiloProvisioningError` with its step, or any other thrown value with its message.
pub data Thrown : Type 0 where
  silo_error : Text → Text → Thrown
  error : Text → Thrown

pub data Result (A : Type 0) : Type 0 where
  returned : A → Result A
  thrown : Thrown → Result A

abbrev pub Action : Type 0 → Type 0 → Type 0
Action W A = W → Result A × W

pub record SiloTarget : Type 0 where
  pub project_id : Text
  pub branch_id : Text
  pub database_ref : Text

-- SiloProvisioningPort; a partial target is none or whole, as the engine passes it.
pub record SiloPort (W : Type 0) : Type 0 where
  pub create_project : Text → Text → Action W Text
  pub create_branch : Text → Text → Action W (Text × Text)
  pub run_migrations : SiloTarget → Action W (Unit {0})
  pub copy_tenant_data : Text → SiloTarget → Action W (Unit {0})
  pub deprovision : Text → Option SiloTarget → Action W (Unit {0})

-- The part of TenantStore that the engine calls.
pub record TenantStore (W : Type 0) : Type 0 where
  pub get_tenant : Text → Action W (Option TenantRecord)
  pub set_status : Text → TenantStatus → Action W (Option TenantRecord)
  pub set_database_ref : Text → Option Text → Action W (Option TenantRecord)
  pub set_tier : Text → TenantTier → Action W (Option TenantRecord)

-- SagaStateStore
pub record SagaStateStore (W : Type 0) : Type 0 where
  pub start_run : StartRunInput → Action W SagaRun
  pub mark_step : Text → StepPatch → Action W (Option SagaRun)
  pub mark_status : Text → SagaStatus → MarkOptions → Action W (Option SagaRun)
  pub get_run : Text → Action W (Option SagaRun)
  pub get_run_by_key : Text → Action W (Option SagaRun)

-- SagaDeps
pub record SagaDeps (W : Type 0) : Type 0 where
  pub port : SiloPort W
  pub store : TenantStore W
  pub saga_store : SagaStateStore W

pub record PromoteToSiloInput : Type 0 where
  pub tenant_id : Text
  pub idempotency_key : Text
  pub region : Text

pub record SagaOutcome : Type 0 where
  pub run : SagaRun
  pub succeeded : Bool
  pub failed_step : Option SagaStep

-- IN_FLIGHT
abbrev pub in_flight : SagaStep → SagaStatus
in_flight provision = SagaStatus.provisioning
in_flight migrate = migrating
in_flight copy = copying
in_flight repoint = repointing
in_flight flip = flipping

-- The step's key as a string.
abbrev pub step_name : SagaStep → Text
step_name provision = text "provision"
step_name migrate = text "migrate"
step_name copy = text "copy"
step_name repoint = text "repoint"
step_name flip = text "flip"

abbrev pub message_of : Thrown → Text
message_of (silo_error step message) = message
message_of (error message) = message

-- The error that a failed run records.
abbrev pub fail_message : SagaStep → Thrown → Text
fail_message current (silo_error step message) = step ++ (text ": " ++ message)
fail_message current (error message) = step_name current ++ (text ": " ++ message)

abbrev pub no_options : MarkOptions
no_options = record { error = none; finished = false }

abbrev pub is_completed : SagaStatus → Bool
is_completed completed = true
is_completed _ = false

abbrev pub is_provisioning : TenantStatus → Bool
is_provisioning Registry.provisioning = true
is_provisioning _ = false
