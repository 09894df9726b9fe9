-- ===== src/Tenant/Runs.antt =====
-- The rows of silo-promotion runs: the types of services/tenant/src/silo.saga.ts and the store of
-- silo.saga.memory.ts. The id and the timestamp of a call are arguments.
use lms_saas.Prelude.{
  Bool, true, false, ◌||◌, Option, none, some, List, [], ◌∷◌, ◌++◌, Text, text_eq, ◌==◌,
  if◌then◌else◌, find, filter, any, last?, update_first,
}
use lms_saas.Tenant.Registry.{TenantTier}

pub data SagaStep : Type 0 where
  provision migrate copy repoint flip : SagaStep

pub data SagaStatus : Type 0 where
  pending provisioning migrating copying repointing flipping : SagaStatus
  completed rolled_back compensation_failed : SagaStatus

-- `prevTier` is null in the table's type only: `startRun` always writes the tenant's tier.
pub record SagaRun : Type 0 where
  pub id : Text
  pub tenant_id : Text
  pub idempotency_key : Text
  pub status : SagaStatus
  pub project_id : Option Text
  pub branch_id : Option Text
  pub database_ref : Option Text
  pub prev_tier : Option TenantTier
  pub prev_database_ref : Option Text
  pub completed_steps : List SagaStep
  pub error : Option Text
  pub created_at : Text
  pub updated_at : Text
  pub started_at : Option Text
  pub finished_at : Option Text

pub record StartRunInput : Type 0 where
  pub tenant_id : Text
  pub idempotency_key : Text
  pub prev_tier : TenantTier
  pub prev_database_ref : Option Text

-- `undefined` fields of a patch are `none`.
pub record StepPatch : Type 0 where
  pub status : SagaStatus
  pub completed_step : Option SagaStep
  pub project_id : Option (Option Text)
  pub branch_id : Option (Option Text)
  pub database_ref : Option (Option Text)

-- The options of `markStatus`; `error` may be present and null.
pub record MarkOptions : Type 0 where
  pub error : Option (Option Text)
  pub finished : Bool

abbrev pub same_step : SagaStep → SagaStep → Bool
same_step provision provision = true
same_step migrate migrate = true
same_step copy copy = true
same_step repoint repoint = true
same_step flip flip = true
same_step _ _ = false

-- TERMINAL.has(status)
abbrev pub is_terminal : SagaStatus → Bool
is_terminal completed = true
is_terminal rolled_back = true
is_terminal compensation_failed = true
is_terminal _ = false

abbrev pub has_run_id : Text → SagaRun → Bool
has_run_id id r = r.id == id

abbrev pub has_key : Text → SagaRun → Bool
has_key key r = r.idempotency_key == key

abbrev pub new_run : Text → Text → StartRunInput → SagaRun
new_run id now i = record {
  id = id;
  tenant_id = i.tenant_id;
  idempotency_key = i.idempotency_key;
  status = pending;
  project_id = none;
  branch_id = none;
  database_ref = none;
  prev_tier = some i.prev_tier;
  prev_database_ref = i.prev_database_ref;
  completed_steps = [];
  error = none;
  created_at = now;
  updated_at = now;
  started_at = some now;
  finished_at = none;
}

start_found : Option SagaRun → List SagaRun → Text → Text → StartRunInput → SagaRun × List SagaRun
start_found (some r) rs id now i = (r, rs)
start_found none rs id now i = (new_run id now i, rs ++ (new_run id now i ∷ []))

-- startRun
unfoldable pub start_run : List SagaRun → Text → Text → StartRunInput → SagaRun × List SagaRun
unfolding start_found
start_run rs id now i = start_found (find (has_key i.idempotency_key) rs) rs id now i

abbrev replace {ℓ} : {A : Type ℓ} → Option A → A → A
replace none old = old
replace (some new) old = new

-- `completedSteps.push(step)` unless it is there already.
abbrev with_step : Option SagaStep → List SagaStep → List SagaStep
with_step none steps = steps
with_step (some s) steps = if any (same_step s) steps then steps else steps ++ (s ∷ [])

abbrev pub stepped : Text → StepPatch → SagaRun → SagaRun
stepped now p r = record r {
  status = p.status;
  completed_steps = with_step p.completed_step r.completed_steps;
  project_id = replace p.project_id r.project_id;
  branch_id = replace p.branch_id r.branch_id;
  database_ref = replace p.database_ref r.database_ref;
  updated_at = now;
}

abbrev pub marked : Text → SagaStatus → MarkOptions → SagaRun → SagaRun
marked now status o r = record r {
  status = status;
  error = replace o.error r.error;
  updated_at = now;
  finished_at = if o.finished || is_terminal status then some now else r.finished_at;
}

change_found :
    Option SagaRun → List SagaRun → Text → (SagaRun → SagaRun) → Option SagaRun × List SagaRun
change_found none rs id f = (none, rs)
change_found (some r) rs id f = (some (f r), update_first (has_run_id id) f rs)

-- The common shape of `markStep` and `markStatus`.
unfoldable pub change : List SagaRun → Text → (SagaRun → SagaRun) → Option SagaRun × List SagaRun
unfolding change_found
change rs id f = change_found (find (has_run_id id) rs) rs id f

-- markStep
unfoldable pub mark_step : List SagaRun → Text → Text → StepPatch → Option SagaRun × List SagaRun
unfolding change
mark_step rs now id p = change rs id (stepped now p)

-- markStatus
unfoldable pub mark_status :
    List SagaRun → Text → Text → SagaStatus → MarkOptions → Option SagaRun × List SagaRun
unfolding change
mark_status rs now id status o = change rs id (marked now status o)

-- getRun
unfoldable pub get_run : List SagaRun → Text → Option SagaRun
get_run rs id = find (has_run_id id) rs

-- getRunByKey
unfoldable pub get_run_by_key : List SagaRun → Text → Option SagaRun
get_run_by_key rs key = find (has_key key) rs

-- getLatestRunByTenant
unfoldable pub get_latest_run_by_tenant : List SagaRun → Text → Option SagaRun
get_latest_run_by_tenant rs tenant = last? (filter (λ r. r.tenant_id == tenant) rs)
