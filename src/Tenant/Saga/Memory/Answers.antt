-- ===== src/Tenant/Saga/Memory/Answers.antt =====
-- Over the memory stores a promotion always answers, whatever the port does.
use lms_saas.Prelude.{ℕ, ◌≡◌, subst, Bool, Option, none, some, List, [], ◌∷◌, Text}
use lms_saas.Tenant.Registry.{TenantRecord, TenantTier, get_tenant}
use lms_saas.Tenant.Runs.{SagaStep, SagaStatus, compensation_failed, SagaRun}
use lms_saas.Tenant.Saga.{
  Result, returned, thrown, Thrown, Action, SiloPort, SiloTarget, SagaDeps, PromoteToSiloInput,
  SagaOutcome, is_provisioning, fail_message,
}
use lms_saas.Tenant.Saga.Engine.{
  Frame, and_then, undo, give_up, compensate, conclude, recover, attempt, first_frame, run_saga,
  promote_tenant, promote_unless, promote_to_silo,
}
use lms_saas.Tenant.Saga.Recovery.{then_case}
use lms_saas.Tenant.Saga.Memory.{World, memory_deps}

-- The call returned.
abbrev pub Returns : {A : Type 0} → Result A → Type 0
Returns (returned a) = Unit
Returns (thrown e) = ⊥

then-Returns :
    {W A B : Type 0} (m : Action W A) (k : A → Action W B) (w : W)
    → Returns (m w).0
    → ((a : A) (w' : W) → Returns (k a w').0)
    → Returns (and_then m k w).0
then-Returns m k w h rest =
    then_case (λ r. Returns r.0) m k w (λ a w' e. rest a w')
      λ e w' eq. absurd (subst (λ r. Returns r.0) eq h)

module _ {I : Type 0} (infra_port : SiloPort I) (ids clock : ℕ → Text)
    (input : PromoteToSiloInput) where
  abbrev deps : SagaDeps (World I)
  deps = memory_deps infra_port ids clock

  give_up-Returns :
      (run : SagaRun) (s : SagaStep) (e : Thrown) (w : World I)
      → Returns (give_up deps input run s e w).0
  give_up-Returns run s e w = tt

  compensate-Returns :
      (run : SagaRun) (tier : TenantTier) (was : Bool) (target : Option SiloTarget)
      (steps : List SagaStep) (w : World I)
      → Returns (compensate deps input run tier was target steps w).0
  unfolding compensate
  compensate-Returns run tier was target [] w = tt
  compensate-Returns run tier was target (s ∷ ss) w =
      go (undo deps input run tier was target s w) (compensate-Returns run tier was target ss)
    where
      go :
          (r : Result (Unit {0}) × World I)
          → ((w : World I) → Returns (compensate deps input run tier was target ss w).0)
          → Returns
              (elim r.0 as (λ _. Result SagaStatus × World I) [
                | returned _ ↦ compensate deps input run tier was target ss r.1
                | thrown e ↦ give_up deps input run s e r.1
              ]).0
      go (returned a, w) rest = rest w
      go (thrown e, w) rest = tt

  conclude-Returns :
      (run : SagaRun) (s : SagaStep) (message : Text) (terminal : SagaStatus) (w : World I)
      → Returns (conclude deps input run s message terminal w).0
  conclude-Returns run s message compensation_failed w = tt
  conclude-Returns run s message _ w = tt

  recover-Returns :
      (run : SagaRun) (tier : TenantTier) (was : Bool) (e : Thrown) (f : Frame) (w : World I)
      → Returns (recover deps input run tier was e f w).0
  unfolding recover
  recover-Returns run tier was e f w =
      then-Returns (compensate deps input run tier was f.target f.completed)
        (conclude deps input run f.current_step (fail_message f.current_step e)) _
        (compensate-Returns run tier was f.target f.completed _)
        (conclude-Returns run f.current_step (fail_message f.current_step e))

  run_saga-Returns :
      (run : SagaRun) (tier : TenantTier) (was : Bool) (w : World I)
      → Returns (run_saga deps input run tier was w).0
  unfolding run_saga
  run_saga-Returns run tier was w = go (attempt deps input run was (first_frame deps input) w)
    where
      go :
          (r : Result SagaOutcome × Frame × World I)
          → Returns
              (elim r.0 as (λ _. Result SagaOutcome × World I) [
                | returned o ↦ (returned o, r.2)
                | thrown e ↦ recover deps input run tier was e r.1 r.2
              ]).0
      go (returned o, f, w) = tt
      go (thrown e, f, w) = recover-Returns run tier was e f w

  found-Returns :
      (t : TenantRecord) (w : World I) → Returns (promote_tenant deps input (some t) w).0
  unfolding promote_tenant
  found-Returns t w = run_saga-Returns _ t.tier (is_provisioning t.status) _

  unless-Returns :
      (existing : Option SagaRun) (w : World I) (t : TenantRecord)
      → get_tenant w.tenants input.tenant_id ≡ some t
      → Returns (promote_unless deps input existing w).0
  unfolding promote_unless
  unless-Returns (some run) w t known = tt
  unless-Returns none w t known = rw known (found-Returns t w)

  -- A promotion of a tenant that the registry has always answers: over the memory stores it never
  -- throws, whichever calls of the port do.
  pub promote-Returns :
      (w : World I) (t : TenantRecord)
      → get_tenant w.tenants input.tenant_id ≡ some t
      → Returns (promote_to_silo deps input w).0
  unfolding promote_to_silo
  promote-Returns w t known = unless-Returns _ w t known
