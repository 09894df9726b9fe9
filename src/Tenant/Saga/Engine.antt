-- ===== src/Tenant/Saga/Engine.antt =====
-- `promoteToSilo` of services/tenant/src/silo.saga.ts: the `try` block, step by step, and `compensate`.
use lms_saas.Prelude.{Bool, true, false, Option, none, some, List, [], ◌∷◌, ◌++◌, Text, text}
use lms_saas.Tenant.Registry.{TenantRecord, TenantTier, silo, TenantStatus, active}
use lms_saas.Tenant.Registry
use lms_saas.Tenant.Runs.{
  SagaStep, provision, migrate, copy, repoint, flip, SagaStatus, completed, rolled_back,
  compensation_failed, SagaRun, StartRunInput, StepPatch,
}
use lms_saas.Tenant.Saga.{
  Thrown, error, Result, returned, thrown, Action, SiloTarget, SagaDeps, PromoteToSiloInput,
  SagaOutcome, in_flight, step_name, message_of, fail_message, no_options, is_completed,
  is_provisioning,
}

-- The variables that the `try` block and `compensate` share. `completed` is the array read from its
-- end: the newest step first, which is the order of the compensations.
pub record Frame : Type 0 where
  pub completed : List SagaStep
  pub target : Option SiloTarget
  pub current_step : SagaStep

-- A statement of the `try` block; what it wrote stays written when it throws.
abbrev pub Block : Type 0 → Type 0 → Type 0
Block W A = Frame → W → Result A × Frame × W

unfoldable pub call : {W A : Type 0} → Action W A → Block W A
call a f w = let r = a w in (r.0, f, r.1)

unfoldable pub write : {W : Type 0} → (Frame → Frame) → Block W (Unit {0})
write g f w = (returned tt, g f, w)

-- Sequencing of two calls, outside the `try` block.
abbrev pub and_then : {W A B : Type 0} → Action W A → (A → Action W B) → Action W B
and_then m k w = let r = m w in elim r.0 [ returned a ↦ k a r.1 | thrown e ↦ (thrown e, r.1) ]

abbrev pub pure : {W A : Type 0} → A → Action W A
pure a w = (returned a, w)

-- `return a`
abbrev pub give : {W A : Type 0} → A → Block W A
give a f w = (returned a, f, w)

infixl 5 ◌>>=◌ ◌>>◌
unfoldable pub ◌>>=◌ : {W A B : Type 0} → Block W A → (A → Block W B) → Block W B
◌>>=◌ m k f w =
    let r = m f w in elim r.0 [ returned a ↦ k a r.1 r.2 | thrown e ↦ (thrown e, r.1, r.2) ]

abbrev pub ◌>>◌ : {W A B : Type 0} → Block W A → Block W B → Block W B
m >> k = m >>= λ _. k

abbrev pub push : SagaStep → Frame → Frame
push s f = record f { completed = s ∷ f.completed }

abbrev pub done_patch : SagaStep → StepPatch
done_patch s = record {
  status = in_flight s;
  completed_step = some s;
  project_id = none;
  branch_id = none;
  database_ref = none;
}

abbrev pub provisioned_patch : SiloTarget → StepPatch
provisioned_patch t = record (done_patch provision) {
  project_id = some (some t.project_id);
  branch_id = some (some t.branch_id);
  database_ref = some (some t.database_ref);
}

-- `done ?? run`
abbrev pub or_run : SagaRun → Option SagaRun → SagaRun
or_run run none = run
or_run run (some r) = r

module _ {W : Type 0} (d : SagaDeps W) (input : PromoteToSiloInput) where
  open d use {port, store, saga_store}
  open input use {tenant_id, region}

  -- `currentStep = step` and the run's in-flight status.
  unfoldable pub enter : SagaRun → SagaStep → Block W (Option SagaRun)
  enter run s = do
    write (λ f. record f { current_step = s })
    call (saga_store.mark_status run.id (in_flight s) no_options)

  unfoldable pub provision_step : SagaRun → Block W SiloTarget
  unfolding enter
  provision_step run = do
    enter run provision
    project ← call (port.create_project tenant_id region)
    branch ← call (port.create_branch tenant_id project)
    let t : SiloTarget = record {
      project_id = project;
      branch_id = branch.0;
      database_ref = branch.1;
    }
    write (λ f. push provision (record f { target = some t }))
    call (saga_store.mark_step run.id (provisioned_patch t))
    give t

  unfoldable pub migrate_step : SagaRun → SiloTarget → Block W (Option SagaRun)
  unfolding enter
  migrate_step run t = do
    enter run migrate
    call (port.run_migrations t)
    write (push migrate)
    call (saga_store.mark_step run.id (done_patch migrate))

  unfoldable pub copy_step : SagaRun → SiloTarget → Block W (Option SagaRun)
  unfolding enter
  copy_step run t = do
    enter run copy
    call (port.copy_tenant_data tenant_id t)
    write (push copy)
    call (saga_store.mark_step run.id (done_patch copy))

  unfoldable pub repoint_step : SagaRun → SiloTarget → Block W (Option SagaRun)
  unfolding enter
  repoint_step run t = do
    enter run repoint
    call (store.set_database_ref tenant_id (some t.database_ref))
    write (push repoint)
    call (saga_store.mark_step run.id (done_patch repoint))

  -- `if (wasProvisioning) await store.setStatus(...)`
  unfoldable pub set_status_if : Bool → TenantStatus → Action W (Unit {0})
  set_status_if true status = and_then (store.set_status tenant_id status) (λ _. pure tt)
  set_status_if false status = pure tt

  unfoldable pub flip_step : SagaRun → Bool → Block W (Option SagaRun)
  unfolding enter set_status_if
  flip_step run was_provisioning = do
    enter run flip
    call (store.set_tier tenant_id silo)
    call (set_status_if was_provisioning active)
    write (push flip)
    call (saga_store.mark_step run.id (done_patch flip))

  -- The `try` block.
  unfoldable pub attempt : SagaRun → Bool → Block W SagaOutcome
  unfolding provision_step migrate_step copy_step repoint_step flip_step
  attempt run was_provisioning = do
    t ← provision_step run
    migrate_step run t
    copy_step run t
    repoint_step run t
    flip_step run was_provisioning
    finished ←
        call (saga_store.mark_status run.id completed (record { error = none; finished = true }))
    give (record { run = or_run run finished; succeeded = true; failed_step = none })

  -- The compensation of one completed step.
  unfoldable pub undo :
      SagaRun → TenantTier → Bool → Option SiloTarget → SagaStep → Action W (Unit {0})
  unfolding set_status_if
  undo run prev_tier was_provisioning target flip =
      and_then (store.set_tier tenant_id prev_tier)
        λ _. set_status_if was_provisioning Registry.provisioning
  undo run prev_tier was_provisioning target repoint =
      and_then (store.set_database_ref tenant_id run.prev_database_ref) λ _. pure tt
  undo run prev_tier was_provisioning target copy = pure tt
  undo run prev_tier was_provisioning target migrate = pure tt
  undo run prev_tier was_provisioning target provision = port.deprovision tenant_id target

  abbrev pub give_up : SagaRun → SagaStep → Thrown → Action W SagaStatus
  give_up run s e =
      and_then
        (saga_store.mark_status run.id compensation_failed (record {
          error = some (
              some
                (text "compensation_failed at " ++ (step_name s ++ (text ": " ++ message_of e))));
          finished = true;
        }))
        λ _. pure compensation_failed

  -- `compensate`
  unfoldable pub compensate :
      SagaRun → TenantTier → Bool → Option SiloTarget → List SagaStep → Action W SagaStatus
  unfolding undo
  compensate run prev_tier was_provisioning target [] w = (returned rolled_back, w)
  compensate run prev_tier was_provisioning target (s ∷ ss) w =
      let r = undo run prev_tier was_provisioning target s w in
      let rest = compensate run prev_tier was_provisioning target ss r.1 in
      elim r.0 [ returned _ ↦ rest | thrown e ↦ give_up run s e r.1 ]

  abbrev pub final_run : SagaRun → Text → SagaStatus → Action W (Option SagaRun)
  final_run run message compensation_failed = saga_store.get_run run.id
  final_run run message _ =
      saga_store.mark_status run.id rolled_back
        (record { error = some (some message); finished = true })

  -- The answer of a failed run, from what the last call on its row returned.
  abbrev pub answer : SagaRun → SagaStep → Option SagaRun → Action W SagaOutcome
  answer run s last =
      pure (record { run = or_run run last; succeeded = false; failed_step = some s })

  abbrev pub conclude : SagaRun → SagaStep → Text → SagaStatus → Action W SagaOutcome
  conclude run s message terminal = and_then (final_run run message terminal) (answer run s)

  abbrev pub roll_back : SagaRun → TenantTier → Bool → Text → Frame → Action W SagaOutcome
  roll_back run prev_tier was_provisioning message f =
      and_then (compensate run prev_tier was_provisioning f.target f.completed)
        (conclude run f.current_step message)

  -- The `catch` block.
  unfoldable pub recover : SagaRun → TenantTier → Bool → Thrown → Frame → Action W SagaOutcome
  unfolding compensate
  recover run prev_tier was_provisioning e f =
      let message = fail_message f.current_step e in
      and_then
        (saga_store.mark_status run.id (in_flight f.current_step)
          (record { error = some (some message); finished = false }))
        λ _. roll_back run prev_tier was_provisioning message f

  abbrev pub first_frame : Frame
  first_frame = record { completed = []; target = none; current_step = provision }

  unfoldable pub run_saga : SagaRun → TenantTier → Bool → Action W SagaOutcome
  unfolding attempt recover
  run_saga run prev_tier was_provisioning w =
      let r = attempt run was_provisioning first_frame w in
      elim r.0 [
        | returned o ↦ (returned o, r.2)
        | thrown e ↦ recover run prev_tier was_provisioning e r.1 r.2
      ]

  abbrev pub run_input : TenantRecord → StartRunInput
  run_input t = record {
    tenant_id = tenant_id;
    idempotency_key = input.idempotency_key;
    prev_tier = t.tier;
    prev_database_ref = t.database_ref;
  }

  abbrev pub run_for : TenantRecord → SagaRun → Action W SagaOutcome
  run_for t run = run_saga run t.tier (is_provisioning t.status)

  unfoldable pub promote_tenant : Option TenantRecord → Action W SagaOutcome
  unfolding run_saga
  promote_tenant none = λ w. (thrown (error (text "tenant_not_found")), w)
  promote_tenant (some t) = and_then (saga_store.start_run (run_input t)) (run_for t)

  unfoldable pub promote_unless : Option SagaRun → Action W SagaOutcome
  unfolding promote_tenant
  promote_unless (some existing) =
      pure (record { run = existing; succeeded = is_completed existing.status; failed_step = none })
  promote_unless none = and_then (store.get_tenant tenant_id) promote_tenant

  -- promoteToSilo
  unfoldable pub promote_to_silo : Action W SagaOutcome
  unfolding promote_unless
  promote_to_silo = and_then (saga_store.get_run_by_key input.idempotency_key) promote_unless
