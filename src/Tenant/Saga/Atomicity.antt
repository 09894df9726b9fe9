-- ===== src/Tenant/Saga/Atomicity.antt =====
-- The saga is all or nothing for the tenant's row.
use lms_saas.Prelude.{◌≡◌, sym, ap, subst, ◌∙◌, Option, none, some, Text, Bool, true, false, arith}
use lms_saas.Tenant.Registry.{TenantRecord, silo}
use lms_saas.Tenant.Runs.{SagaStatus, rolled_back, SagaRun}
use lms_saas.Tenant.Saga.{
  Result, returned, thrown, SagaDeps, PromoteToSiloInput, SagaOutcome, is_provisioning,
}
use lms_saas.Tenant.Saga.Engine.{
  promote_to_silo, promote_tenant, promote_unless, run_input, run_for,
}
use lms_saas.Tenant.Saga.Contract.{Catalog, catalog_of, IsCatalog, IsApart, IsRunStore}
use lms_saas.Tenant.Saga.Recovery.{IsSettled, then_case, run_saga-IsSettled}

module _ {W : Type 0} (d : SagaDeps W) (input : PromoteToSiloInput) (view : W → Option Catalog)
    (status_of : Text → W → Option SagaStatus) (is_free : Text → W → Bool)
    (cat : IsCatalog d input.tenant_id view) (apart : IsApart d input.tenant_id view)
    (runs : IsRunStore d input.tenant_id status_of is_free) where
  open d use {port, store, saga_store}
  open input use {tenant_id, region}

  start-IsSettled :
      (t : TenantRecord) (w : W)
      → view w ≡ some (catalog_of t)
      → is_provisioning t.status ≡ false
      → is_free input.idempotency_key w ≡ true
      → IsSettled view (catalog_of t) (promote_tenant d input (some t) w)
  unfolding promote_tenant
  start-IsSettled t w h settled free =
      then_case (IsSettled view (catalog_of t)) (saga_store.start_run (run_input d input t))
        (run_for d input t) w
        (λ run w' e.
          let fresh = runs.started (run_input d input t) w run free (ap (λ r. r.0) e) in
          rw settled (
            run_saga-IsSettled d input view status_of is_free cat apart runs (catalog_of t) run
              fresh.1 w' fresh.0
              (ap (λ r. view r.1) (sym e) ∙ apart.start_keeps (run_input d input t) w ∙ h)))
        (λ _ _ _. tt)

  no_tenant : (c : Catalog) (w : W) → IsSettled view c (promote_tenant d input none w)
  unfolding promote_tenant
  no_tenant c w = tt

  fresh-IsSettled :
      (c : Catalog) (w : W)
      → view w ≡ some c
      → is_provisioning c.status ≡ false
      → is_free input.idempotency_key w ≡ true
      → IsSettled view c (promote_unless d input none w)
  unfolding promote_unless
  fresh-IsSettled c w h settled free =
      then_case (IsSettled view c) (store.get_tenant tenant_id) (promote_tenant d input) w found
        (λ _ _ _. tt)
    where
      found :
          (o : Option TenantRecord) (w' : W)
          → store.get_tenant tenant_id w ≡ (returned o, w')
          → IsSettled view c (promote_tenant d input o w')
      found none w' e = no_tenant c w'
      found (some t) w' e =
          let seen : view w ≡ some (catalog_of t) = cat.get_returns w t (ap (λ r. r.0) e) in
          let same : catalog_of t ≡ c = ground (arith, seen, h) in
          subst (λ k. IsSettled view k (promote_tenant d input (some t) w')) same
            (start-IsSettled t w' (ap (λ r. view r.1) (sym e) ∙ cat.get_keeps w ∙ seen)
              (subst (λ k. is_provisioning k.status ≡ false) (sym same) settled)
              (subst (λ r. is_free input.idempotency_key r.1 ≡ true) e
                (runs.key_stays_free input.idempotency_key w free)))

  abbrev RollsBack : Catalog → Result SagaOutcome × W → Type 0
  RollsBack c (returned o, w) = o.run.status ≡ rolled_back → view w ≡ some c
  RollsBack c (thrown e, w) = Unit

  settled-RollsBack :
      (c : Catalog) (r : Result SagaOutcome × W) → IsSettled view c r → RollsBack c r
  settled-RollsBack c (returned o, w) s = s.1
  settled-RollsBack c (thrown e, w) s = tt

  key_seen :
      (c : Catalog) (w w' : W) (x : Option SagaRun)
      → view w ≡ some c
      → saga_store.get_run_by_key input.idempotency_key w ≡ (returned x, w')
      → view w' ≡ some c
  key_seen c w w' x h e = ap (λ r. view r.1) (sym e) ∙ apart.key_keeps input.idempotency_key w ∙ h

  key_free :
      (w w' : W)
      → saga_store.get_run_by_key input.idempotency_key w ≡ (returned none, w')
      → is_free input.idempotency_key w' ≡ true
  key_free w w' e =
      subst (λ r. is_free input.idempotency_key r.1 ≡ true) e
        (runs.key_freed input.idempotency_key w (ap (λ r. r.0) e))

  replayed :
      (r : SagaRun) (c : Catalog) (w : W)
      → view w ≡ some c
      → RollsBack c (promote_unless d input (some r) w)
  unfolding promote_unless
  replayed r c w h = λ _. h

  promote-RollsBack :
      (c : Catalog) (w : W)
      → view w ≡ some c
      → is_provisioning c.status ≡ false
      → RollsBack c (promote_to_silo d input w)
  unfolding promote_to_silo
  promote-RollsBack c w h settled =
      then_case (RollsBack c) (saga_store.get_run_by_key input.idempotency_key)
        (promote_unless d input) w found (λ _ _ _. tt)
    where
      found :
          (x : Option SagaRun) (w' : W)
          → saga_store.get_run_by_key input.idempotency_key w ≡ (returned x, w')
          → RollsBack c (promote_unless d input x w')
      found none w' e =
          settled-RollsBack c _
            (fresh-IsSettled c w' (key_seen c w w' none h e) settled (key_free w w' e))
      found (some r) w' e = replayed r c w' (key_seen c w w' (some r) h e)

  promote-IsSettled :
      (c : Catalog) (w : W)
      → view w ≡ some c
      → is_provisioning c.status ≡ false
      → (saga_store.get_run_by_key input.idempotency_key w).0 ≡ returned none
      → IsSettled view c (promote_to_silo d input w)
  unfolding promote_to_silo
  promote-IsSettled c w h settled new =
      then_case (IsSettled view c) (saga_store.get_run_by_key input.idempotency_key)
        (promote_unless d input) w found (λ _ _ _. tt)
    where
      found :
          (x : Option SagaRun) (w' : W)
          → saga_store.get_run_by_key input.idempotency_key w ≡ (returned x, w')
          → IsSettled view c (promote_unless d input x w')
      found none w' e = fresh-IsSettled c w' (key_seen c w w' none h e) settled (key_free w w' e)
      found (some r) w' e = absurd (ground (arith, new, ap (λ a. a.0) e))

  -- All or nothing, rollback: over stores and a port whose every call applies or throws without a
  -- trace, whenever the answer's run is `rolled_back`, the tenant's tier, status and database ref are
  -- what they were before the call (for a tenant that was not itself `provisioning`), whichever call
  -- of the port, the registry or the run store failed, and also for a replayed key.
  pub promote-rolled_back :
      (c : Catalog) (w w' : W) (o : SagaOutcome)
      → view w ≡ some c
      → is_provisioning c.status ≡ false
      → promote_to_silo d input w ≡ (returned o, w')
      → o.run.status ≡ rolled_back
      → view w' ≡ some c
  promote-rolled_back c w w' o h settled e rolled =
      subst (RollsBack c) e (promote-RollsBack c w h settled) rolled

  -- All or nothing, promotion: for a tenant whose status is not `provisioning`, and under a key that no
  -- run has yet, an answer that reports success comes with a tenant of tier `silo` whose database ref
  -- is set, its status unchanged, over any stores and port whose every call applies or throws without a
  -- trace.
  pub promote-succeeded :
      (c : Catalog) (w w' : W) (o : SagaOutcome)
      → view w ≡ some c
      → is_provisioning c.status ≡ false
      → (saga_store.get_run_by_key input.idempotency_key w).0 ≡ returned none
      → promote_to_silo d input w ≡ (returned o, w')
      → o.succeeded ≡ true
      → (ref : Text) × (view w' ≡ some (record c { tier = silo; database_ref = some ref }))
  promote-succeeded c w w' o h settled new e ok =
      (subst (IsSettled view c) e (promote-IsSettled c w h settled new)).0 ok
