-- ===== src/Tenant/Saga/Steps.antt =====
-- The `try` block, step by step: where it throws, the compensations of the steps that it has completed
-- lead the tenant's row back to where it was; where it returns, the row has moved to the silo.
use lms_saas.Prelude.{
  ◌≡◌, ◌≢◌, refl, sym, ap, subst, ◌∙◌, Option, none, some, List, [], ◌∷◌, Text, Bool, true, false,
  arith,
}
use lms_saas.Tenant.Registry.{silo, TenantStatus}
use lms_saas.Tenant.Runs.{
  SagaStep, provision, migrate, copy, repoint, flip, SagaStatus, pending, completed, rolled_back,
  SagaRun, StepPatch,
}
use lms_saas.Tenant.Saga.{
  Result, returned, thrown, Action, SiloTarget, SagaDeps, PromoteToSiloInput, SagaOutcome,
  in_flight,
}
use lms_saas.Tenant.Saga.Engine.{
  Frame, Block, call, give, or_run, write, ◌>>=◌, ◌>>◌, push, enter, provision_step, migrate_step,
  copy_step, repoint_step, set_status_if, flip_step, attempt,
}
use lms_saas.Tenant.Saga.Contract.{Catalog, Shows, IsCatalog, IsApart, IsRunStore}

-- How a block ends: a condition on a return, and one on a throw.
abbrev pub Ends :
    {W A : Type 0} → (A → Frame → W → Type 0) → (Frame → W → Type 0) → Result A × Frame × W → Type 0
Ends Q E (returned a, f, w) = Q a f w
Ends Q E (thrown e, f, w) = E f w

module _ {W A B : Type 0} (Q : A → Frame → W → Type 0) (R : B → Frame → W → Type 0)
    (E : Frame → W → Type 0) where
  bind_result :
      (k : A → Block W B) (r : Result A × Frame × W)
      → Ends Q E r
      → ((a : A) (f' : Frame) (w' : W) → Q a f' w' → Ends R E (k a f' w'))
      → Ends R E (elim r.0 [ returned a ↦ k a r.1 r.2 | thrown e ↦ (thrown e, r.1, r.2) ])
  bind_result k (returned a, f', w') q next = next a f' w' q
  bind_result k (thrown e, f', w') q next = q

  bind_ends :
      (m : Block W A) (k : A → Block W B) (f : Frame) (w : W)
      → Ends Q E (m f w)
      → ((a : A) (f' : Frame) (w' : W) → Q a f' w' → Ends R E (k a f' w'))
      → Ends R E ((m >>= k) f w)
  unfolding ◌>>=◌
  bind_ends m k f w = bind_result k (m f w)

write_ends :
    {W : Type 0} (Q : Unit {0} → Frame → W → Type 0) (E : Frame → W → Type 0) (g : Frame → Frame)
    (f : Frame) (w : W)
    → Q tt (g f) w
    → Ends Q E (write g f w)
unfolding write
write_ends Q E g f w q = q

-- The compensations of these steps, newest first, lead from the row `v` back to `c`.
abbrev pub IsUndone : Catalog → List SagaStep → Catalog → Type 0
IsUndone c [] v = v ≡ c
IsUndone c (flip ∷ ss) v = IsUndone c ss (record v { tier = c.tier })
IsUndone c (repoint ∷ ss) v = IsUndone c ss (record v { database_ref = c.database_ref })
IsUndone c (_ ∷ ss) v = IsUndone c ss v

module _ {W : Type 0} (d : SagaDeps W) (input : PromoteToSiloInput) (view : W → Option Catalog)
    (status_of : Text → W → Option SagaStatus) (is_free : Text → W → Bool)
    (cat : IsCatalog d input.tenant_id view) (apart : IsApart d input.tenant_id view)
    (runs : IsRunStore d input.tenant_id status_of is_free) (c : Catalog) where
  open d use {port, store, saga_store}
  open input use {tenant_id, region}

  -- The block has completed these steps, and the row is `v`.
  abbrev pub At : List SagaStep → Catalog → Frame → W → Type 0
  At done v f w = (f.completed ≡ done) × (view w ≡ some v)

  abbrev pub IsUndoable : Frame → W → Type 0
  IsUndoable f w = (v : Catalog) × (view w ≡ some v) × IsUndone c f.completed v

  undoable_at :
      (done : List SagaStep) (v : Catalog) (f : Frame) (w : W)
      → IsUndone c done v
      → At done v f w
      → IsUndoable f w
  undoable_at done v f w u at = (v, at.1, subst (λ ss. IsUndone c ss v) (sym at.0) u)

  module _ {A : Type 0} (done : List SagaStep) (v : Catalog) (f : Frame)
      (u : IsUndone c done v) where
    kept :
        (w : W) (r : Result A × W)
        → view r.1 ≡ view w
        → At done v f w
        → Ends {A = A} (λ _. At done v) IsUndoable (r.0, f, r.1)
    kept w (returned a, w') same at = (at.0, same ∙ at.1)
    kept w (thrown e, w') same at = undoable_at done v f w' u (at.0, same ∙ at.1)

    call_keeps :
        (a : Action W A) (w : W)
        → view (a w).1 ≡ view w
        → At done v f w
        → Ends {A = A} (λ _. At done v) IsUndoable (call a f w)
    unfolding call
    call_keeps a w same at = kept w (a w) same at

    shown :
        (v' : Catalog) (r : Result A × W)
        → Shows view v' v r
        → f.completed ≡ done
        → Ends {A = A} (λ _. At done v') IsUndoable (r.0, f, r.1)
    shown v' (returned a, w') h e = (e, h)
    shown v' (thrown e', w') h e = undoable_at done v f w' u (e, h)

    call_shows :
        (v' : Catalog) (a : Action W A) (w : W)
        → Shows view v' v (a w)
        → f.completed ≡ done
        → Ends {A = A} (λ _. At done v') IsUndoable (call a f w)
    unfolding call
    call_shows v' a w = shown v' (a w)

  module _ (run : SagaRun) (done : List SagaStep) (v : Catalog) (u : IsUndone c done v) where
    enter_ends :
        (s : SagaStep) (f : Frame) (w : W)
        → At done v f w
        → Ends (λ _. At done v) IsUndoable (enter d input run s f w)
    unfolding enter
    enter_ends s f w at =
        bind_ends (λ _. At done v) (λ _. At done v) IsUndoable (write _) _ f w
          (write_ends (λ _. At done v) IsUndoable _ f w at)
          λ _ f1 w1 at1.
            call_keeps done v f1 u (saga_store.mark_status run.id (in_flight s) _) w1
              (apart.mark_keeps run.id (in_flight s) _ w1) at1

    -- A step whose action moves the row from `v` to `v'`.
    block_ends :
        {A : Type 0} (s : SagaStep) (a : Action W A) (p : StepPatch) (v' : Catalog)
        → ((w : W) → view w ≡ some v → Shows view v' v (a w))
        → IsUndone c (s ∷ done) v'
        → (f : Frame) (w : W) → At done v f w
        → Ends
            (λ _. At (s ∷ done) v')
            IsUndoable
            ((enter d input run s
                >> (call a >> (write (push s) >> call (saga_store.mark_step run.id p))))
              f w)
    block_ends s a p v' moves u' f w at =
        bind_ends (λ _. At done v) Done IsUndoable (enter d input run s) _ f w (enter_ends s f w at)
          λ _ f1 w1 at1.
            bind_ends (λ _. At done v') Done IsUndoable (call a) _ f1 w1
              (call_shows done v f1 u v' a w1 (moves w1 at1.1) at1.0)
              λ _ f2 w2 at2.
                bind_ends (λ _. At (s ∷ done) v') Done IsUndoable (write (push s)) _ f2 w2
                  (write_ends (λ _. At (s ∷ done) v') IsUndoable (push s) f2 w2
                    (ap (λ ss. s ∷ ss) at2.0, at2.1))
                  λ _ f3 w3 at3.
                    call_keeps (s ∷ done) v' f3 u' (saga_store.mark_step run.id p) w3
                      (apart.step_keeps run.id p w3) at3
      where
        Done : Option SagaRun → Frame → W → Type 0
        Done _ = At (s ∷ done) v'

  pub Shows-kept :
      {A : Type 0} (v : Catalog) (w : W) (r : Result A × W)
      → view r.1 ≡ view w
      → view w ≡ some v
      → Shows view v v r
  Shows-kept v w (returned a, w') same h = same ∙ h
  Shows-kept v w (thrown e, w') same h = same ∙ h

  abbrev pointed : SiloTarget → Catalog
  pointed t = record c { database_ref = some t.database_ref }

  abbrev pub moved : SiloTarget → Catalog
  moved t = record c { database_ref = some t.database_ref; tier = silo }

  module _ (run : SagaRun) where
    provision_ends :
        (f : Frame) (w : W)
        → At [] c f w
        → Ends (λ _. At (provision ∷ []) c) IsUndoable (provision_step d input run f w)
    unfolding provision_step
    provision_ends f w at =
        bind_ends (λ _. At [] c) Done IsUndoable (enter d input run provision) _ f w
          (enter_ends run [] c refl provision f w at)
          λ _ f1 w1 at1.
            bind_ends (λ _. At [] c) Done IsUndoable (call (port.create_project tenant_id region)) _
              f1 w1 (call_keeps [] c f1 refl _ w1 (apart.project_keeps region w1) at1)
              λ project f2 w2 at2.
                bind_ends (λ _. At [] c) Done IsUndoable
                  (call (port.create_branch tenant_id project)) _ f2 w2
                  (call_keeps [] c f2 refl _ w2 (apart.branch_keeps project w2) at2)
                  λ branch f3 w3 at3.
                    bind_ends (λ _. At (provision ∷ []) c) Done IsUndoable (write _) _ f3 w3
                      (write_ends (λ _. At (provision ∷ []) c) IsUndoable _ f3 w3
                        (ap (λ ss. provision ∷ ss) at3.0, at3.1))
                      λ _ f4 w4 at4.
                        bind_ends (λ _. At (provision ∷ []) c) Done IsUndoable (call _) _ f4 w4
                          (call_keeps (provision ∷ []) c f4 refl _ w4 (apart.step_keeps run.id _ w4)
                            at4)
                          λ _ _ _ at5. at5
      where
        Done : SiloTarget → Frame → W → Type 0
        Done _ = At (provision ∷ []) c

    abbrev copied : List SagaStep
    copied = copy ∷ migrate ∷ provision ∷ []

    migrate_ends :
        (t : SiloTarget) (f : Frame) (w : W)
        → At (provision ∷ []) c f w
        → Ends (λ _. At (migrate ∷ provision ∷ []) c) IsUndoable (migrate_step d input run t f w)
    unfolding migrate_step
    migrate_ends t f w at =
        block_ends run (provision ∷ []) c refl migrate (port.run_migrations t) _ c
          (λ w h. Shows-kept c w _ (apart.migrations_keep t w) h) refl f w at

    copy_ends :
        (t : SiloTarget) (f : Frame) (w : W)
        → At (migrate ∷ provision ∷ []) c f w
        → Ends (λ _. At copied c) IsUndoable (copy_step d input run t f w)
    unfolding copy_step
    copy_ends t f w at =
        block_ends run (migrate ∷ provision ∷ []) c refl copy (port.copy_tenant_data tenant_id t) _
          c (λ w h. Shows-kept c w _ (apart.data_keeps t w) h) refl f w at

    repoint_ends :
        (t : SiloTarget) (f : Frame) (w : W)
        → At copied c f w
        → Ends (λ _. At (repoint ∷ copied) (pointed t)) IsUndoable (repoint_step d input run t f w)
    unfolding repoint_step
    repoint_ends t f w at =
        block_ends run copied c refl repoint
          (store.set_database_ref tenant_id (some t.database_ref)) _ (pointed t)
          (λ w h. cat.ref_set (some t.database_ref) w c h) refl f w at

    skip_ends :
        (status : TenantStatus) (done : List SagaStep) (v : Catalog) (f : Frame) (w : W)
        → At done v f w
        → Ends (λ _. At done v) IsUndoable (call (set_status_if d input false status) f w)
    unfolding call set_status_if
    skip_ends status done v f w at = at

    -- The flip of a tenant that was not being provisioned.
    flip_ends :
        (t : SiloTarget) (f : Frame) (w : W)
        → At (repoint ∷ copied) (pointed t) f w
        → Ends
            (λ _. At (flip ∷ repoint ∷ copied) (moved t))
            IsUndoable
            (flip_step d input run false f w)
    unfolding flip_step
    flip_ends t f w at =
        bind_ends (λ _. At before (pointed t)) Done IsUndoable (enter d input run flip) _ f w
          (enter_ends run before (pointed t) refl flip f w at)
          λ _ f1 w1 at1.
            bind_ends (λ _. At before (moved t)) Done IsUndoable
              (call (store.set_tier tenant_id silo)) _ f1 w1
              (call_shows before (pointed t) f1 refl (moved t) _ w1
                (cat.tier_set silo w1 (pointed t) at1.1) at1.0)
              λ _ f2 w2 at2.
                bind_ends (λ _. At before (moved t)) Done IsUndoable (call _) _ f2 w2
                  (skip_ends TenantStatus.active before (moved t) f2 w2 at2)
                  λ _ f3 w3 at3.
                    bind_ends (λ _. At (flip ∷ before) (moved t)) Done IsUndoable
                      (write (push flip)) _ f3 w3
                      (write_ends (λ _. At (flip ∷ before) (moved t)) IsUndoable (push flip) f3 w3
                        (ap (λ ss. flip ∷ ss) at3.0, at3.1))
                      λ _ f4 w4 at4.
                        call_keeps (flip ∷ before) (moved t) f4 refl _ w4
                          (apart.step_keeps run.id _ w4) at4
      where
        before : List SagaStep
        before = repoint ∷ copied

        Done : Option SagaRun → Frame → W → Type 0
        Done _ = At (flip ∷ before) (moved t)

    abbrev pub IsMoved : SagaOutcome → Frame → W → Type 0
    IsMoved o f w =
        (o.succeeded ≡ true)
        × (o.run.status ≢ rolled_back)
        × ((t : SiloTarget) × (view w ≡ some (moved t)))

    abbrev finish : Action W (Option SagaRun)
    finish = saga_store.mark_status run.id completed (record { error = none; finished = true })

    moved-outcome :
        (t : SiloTarget) (f : Frame) (w : W) (r : Result (Option SagaRun) × W)
        → finish w ≡ r
        → run.status ≡ pending
        → At (flip ∷ repoint ∷ copied) (moved t) f w
        → Ends IsMoved IsUndoable (elim r.0 [
          | returned x ↦ (
            returned (record { run = or_run run x; succeeded = true; failed_step = none }),
            f,
            r.1,
          )
          | thrown e ↦ (thrown e, f, r.1)
        ])
    moved-outcome t f w (returned none, w') e new at = (
      refl,
      ground (arith, new),
      (t, ap (λ r. view r.1) (sym e) ∙ apart.mark_keeps run.id completed _ w ∙ at.1),
    )
    moved-outcome t f w (returned (some x), w') e new at = (
      refl,
      ground (
        arith,
        runs.marked_status run.id completed (record { error = none; finished = true }) w x
            (ap (λ r. r.0) e),
      ),
      (t, ap (λ r. view r.1) (sym e) ∙ apart.mark_keeps run.id completed _ w ∙ at.1),
    )
    moved-outcome t f w (thrown x, w') e new at =
        undoable_at (flip ∷ repoint ∷ copied) (moved t) f w' refl
          (at.0, ap (λ r. view r.1) (sym e) ∙ apart.mark_keeps run.id completed _ w ∙ at.1)

    finish_ends :
        (t : SiloTarget) (f : Frame) (w : W)
        → run.status ≡ pending
        → At (flip ∷ repoint ∷ copied) (moved t) f w
        → Ends IsMoved IsUndoable (
            (call finish >>= λ x.
            give (record { run = or_run run x; succeeded = true; failed_step = none }))
              f w)
    unfolding ◌>>=◌ call
    finish_ends t f w new at = moved-outcome t f w (finish w) refl new at

    pub attempt_ends :
        (f : Frame) (w : W)
        → run.status ≡ pending
        → At [] c f w
        → Ends IsMoved IsUndoable (attempt d input run false f w)
    unfolding attempt
    attempt_ends f w new at =
        bind_ends (λ _. At (provision ∷ []) c) IsMoved IsUndoable (provision_step d input run) _ f w
          (provision_ends f w at)
          λ t f1 w1 at1.
            bind_ends (λ _. At (migrate ∷ provision ∷ []) c) IsMoved IsUndoable
              (migrate_step d input run t) _ f1 w1 (migrate_ends t f1 w1 at1)
              λ _ f2 w2 at2.
                bind_ends (λ _. At copied c) IsMoved IsUndoable (copy_step d input run t) _ f2 w2
                  (copy_ends t f2 w2 at2)
                  λ _ f3 w3 at3.
                    bind_ends (λ _. At (repoint ∷ copied) (pointed t)) IsMoved IsUndoable
                      (repoint_step d input run t) _ f3 w3 (repoint_ends t f3 w3 at3)
                      λ _ f4 w4 at4.
                        bind_ends (λ _. At (flip ∷ repoint ∷ copied) (moved t)) IsMoved IsUndoable
                          (flip_step d input run false) _ f4 w4 (flip_ends t f4 w4 at4)
                          λ _ f5 w5 at5. finish_ends t f5 w5 new at5
