-- ===== src/Tenant/Saga/Recovery.antt =====
-- The `catch` block: its compensations lead the tenant's row back, or the run says that they failed.
use lms_saas.Prelude.{
  ◌≡◌, ◌≢◌, refl, sym, ap, subst, ◌∙◌, Option, none, some, List, [], ◌∷◌, Text, Bool, true, false,
  arith,
}
use lms_saas.Tenant.Registry.{silo}
use lms_saas.Tenant.Runs.{
  SagaStep, provision, migrate, copy, repoint, flip, SagaStatus, pending, rolled_back,
  compensation_failed, SagaRun, MarkOptions,
}
use lms_saas.Tenant.Saga.{
  Thrown, Result, returned, thrown, Action, SiloTarget, SagaDeps, PromoteToSiloInput, SagaOutcome,
  in_flight, fail_message,
}
use lms_saas.Tenant.Saga.Engine.{
  Frame, and_then, pure, attempt, undo, give_up, roll_back, conclude, answer, first_frame,
  compensate, final_run, recover, run_saga, set_status_if,
}
use lms_saas.Tenant.Saga.Contract.{Catalog, Shows, IsCatalog, IsApart, IsRunStore}
use lms_saas.Tenant.Saga.Steps.{Ends, IsUndone, IsUndoable, IsMoved, attempt_ends, Shows-kept}

-- The row once the step is compensated.
abbrev after_undo : Catalog → SagaStep → Catalog → Catalog
after_undo c flip v = record v { tier = c.tier }
after_undo c repoint v = record v { database_ref = c.database_ref }
after_undo c _ v = v

-- What the saga's answer says about the row, which was `c`.
abbrev pub IsSettled :
    {W : Type 0} → (W → Option Catalog) → Catalog → Result SagaOutcome × W → Type 0
IsSettled view c (returned o, w) =
    (o.succeeded ≡ true
      → (ref : Text) × (view w ≡ some (record c { database_ref = some ref; tier = silo })))
    × (o.run.status ≡ rolled_back → view w ≡ some c)
IsSettled view c (thrown e, w) = Unit

module _ {W A B : Type 0} (Q : Result B × W → Type 0) where
  -- A property of two calls in a row: of the second after a return, of a throw of the first.
  pub then_case :
      (m : Action W A) (k : A → Action W B) (w : W)
      → ((a : A) (w' : W) → m w ≡ (returned a, w') → Q (k a w'))
      → ((e : Thrown) (w' : W) → m w ≡ (thrown e, w') → Q (thrown e, w'))
      → Q (and_then m k w)
  then_case m k w ret thr = go (m w) refl
    where
      go :
          (r : Result A × W)
          → m w ≡ r
          → Q (elim r.0 [ returned a ↦ k a r.1 | thrown e ↦ (thrown e, r.1) ])
      go (returned a, w') e = ret a w' e
      go (thrown x, w') e = thr x w' e

Shows-then_pure :
    {W A : Type 0} (view : W → Option Catalog) (v v' : Catalog) (r : Result A × W)
    → Shows view v v' r
    → Shows {A = Unit {0}} view v v'
        (elim r.0 [ returned a ↦ (returned tt, r.1) | thrown e ↦ (thrown e, r.1) ])
Shows-then_pure view v v' (returned a, w) h = h
Shows-then_pure view v v' (thrown e, w) h = h

module _ {W : Type 0} (d : SagaDeps W) (input : PromoteToSiloInput) (view : W → Option Catalog)
    (status_of : Text → W → Option SagaStatus) (is_free : Text → W → Bool)
    (cat : IsCatalog d input.tenant_id view) (apart : IsApart d input.tenant_id view)
    (runs : IsRunStore d input.tenant_id status_of is_free) (c : Catalog) where
  open d use {port, store, saga_store}
  open input use {tenant_id, region}

  module _ (run : SagaRun) (ref_kept : run.prev_database_ref ≡ c.database_ref) where
    -- Where `compensate` has come to.
    abbrev Reached : SagaStatus → W → Type 0
    Reached rolled_back w = view w ≡ some c
    Reached compensation_failed w = status_of run.id w ≢ some rolled_back
    Reached _ w = ⊥

    abbrev IsCompensated : Result SagaStatus × W → Type 0
    IsCompensated (returned s, w) = Reached s w
    IsCompensated (thrown e, w) = Unit

    marked_other :
        (s s' : SagaStatus) (o : MarkOptions) (w w' : W) (x : Option SagaRun)
        → saga_store.mark_status run.id s o w ≡ (returned x, w')
        → s ≢ s'
        → status_of run.id w' ≢ some s'
    marked_other s s' o w w' none e ne = ground (
      arith,
      runs.marked_nothing run.id s o w (ap (λ r. r.0) e),
      ap (λ r. status_of run.id r.1) e,
    )
    marked_other s s' o w w' (some r) e ne = ground (
      arith,
      runs.marked_status run.id s o w r (ap (λ r. r.0) e),
      ap (λ r. status_of run.id r.1) e,
    )

    gave_up : (s : SagaStep) (e : Thrown) (w : W) → IsCompensated (give_up d input run s e w)
    gave_up s e w =
        then_case IsCompensated (saga_store.mark_status run.id compensation_failed _)
          (λ _. pure compensation_failed) w
          (λ x w' eq. marked_other compensation_failed rolled_back _ w w' x eq (λ h. cc))
          (λ _ _ _. tt)

    undo-Shows :
        (target : Option SiloTarget) (s : SagaStep) (v : Catalog) (w : W)
        → view w ≡ some v
        → Shows view (after_undo c s v) v (undo d input run c.tier false target s w)
    unfolding undo set_status_if
    undo-Shows target flip v w h = Shows-then_pure view _ v _ (cat.tier_set c.tier w v h)
    undo-Shows target repoint v w h =
        rw ref_kept (Shows-then_pure view _ v _ (cat.ref_set c.database_ref w v h))
    undo-Shows target copy v w h = h
    undo-Shows target migrate v w h = h
    undo-Shows target provision v w h =
        Shows-kept d input view status_of is_free cat apart runs c v w _
          (apart.deprovision_keeps target w) h

    still-IsUndone :
        (s : SagaStep) (ss : List SagaStep) (v : Catalog)
        → IsUndone c (s ∷ ss) v
        → IsUndone c ss (after_undo c s v)
    still-IsUndone provision ss v u = u
    still-IsUndone migrate ss v u = u
    still-IsUndone copy ss v u = u
    still-IsUndone repoint ss v u = u
    still-IsUndone flip ss v u = u

    compensate-restores :
        (target : Option SiloTarget) (ss : List SagaStep) (v : Catalog) (w : W)
        → view w ≡ some v
        → IsUndone c ss v
        → IsCompensated (compensate d input run c.tier false target ss w)
    unfolding compensate
    compensate-restores target [] v w h u = h ∙ ap some u
    compensate-restores target (s ∷ ss) v w h u =
        go (undo d input run c.tier false target s w) (undo-Shows target s v w h) (λ w' h'.
          compensate-restores target ss (after_undo c s v) w' h' (still-IsUndone s ss v u))
      where
        go :
            (r : Result (Unit {0}) × W)
            → Shows view (after_undo c s v) v r
            → ((w' : W)
                → view w' ≡ some (after_undo c s v)
                → IsCompensated (compensate d input run c.tier false target ss w'))
            → IsCompensated (elim r.0 [
              | returned _ ↦ compensate d input run c.tier false target ss r.1
              | thrown e ↦ give_up d input run s e r.1
            ])
        go (returned a, w') h' next = next w' h'
        go (thrown e, w') h' next = gave_up s e w'

    final-IsSettled :
        (s : SagaStep) (message : Text) (terminal : SagaStatus) (w : W)
        → run.status ≡ pending
        → Reached terminal w
        → IsSettled view c
            (and_then (final_run d input run message terminal) (answer d input run s) w)
    final-IsSettled s message rolled_back w new h =
        then_case (IsSettled view c) (final_run d input run message rolled_back)
          (answer d input run s) w
          (λ x w' e. (
            (λ no_success. cc),
            λ _. ap (λ r. view r.1) (sym e) ∙ apart.mark_keeps run.id rolled_back _ w ∙ h,
          ))
          (λ _ _ _. tt)
    final-IsSettled s message compensation_failed w new h =
        then_case (IsSettled view c) (final_run d input run message compensation_failed)
          (answer d input run s) w found (λ _ _ _. tt)
      where
        found :
            (x : Option SagaRun) (w' : W)
            → saga_store.get_run run.id w ≡ (returned x, w')
            → IsSettled view c (answer d input run s x w')
        found none w' e = ((λ no_success. cc), λ rolled. ground (arith, new, rolled))
        found (some r) w' e = (
          (λ no_success. cc),
          λ rolled. absurd (h (runs.run_found run.id w r (ap (λ r. r.0) e) ∙ ap some rolled)),
        )
    final-IsSettled s message _ w new h = absurd h

    recover-IsSettled :
        (e : Thrown) (f : Frame) (w : W)
        → run.status ≡ pending
        → IsUndoable d input view status_of is_free cat apart runs c f w
        → IsSettled view c (recover d input run c.tier false e f w)
    unfolding recover
    recover-IsSettled e f w new (v, h, u) =
        then_case (IsSettled view c) (saga_store.mark_status run.id (in_flight f.current_step) _)
          (λ _. roll_back d input run c.tier false message f) w
          (λ x w' eq.
            then_case (IsSettled view c) (compensate d input run c.tier false f.target f.completed)
              (conclude d input run f.current_step message) w'
              (λ terminal w'' eq2. final-IsSettled f.current_step message terminal w'' new (
                subst IsCompensated eq2 (
                  compensate-restores f.target f.completed v w'
                    (ap (λ r. view r.1) (sym eq) ∙ apart.mark_keeps run.id _ _ w ∙ h) u)))
              (λ _ _ _. tt))
          (λ _ _ _. tt)
      where
        message : Text
        message = fail_message f.current_step e

    pub run_saga-IsSettled :
        (w : W)
        → run.status ≡ pending
        → view w ≡ some c
        → IsSettled view c (run_saga d input run c.tier false w)
    unfolding run_saga
    run_saga-IsSettled w new h = go (attempt d input run false (first_frame d input) w) (
        attempt_ends d input view status_of is_free cat apart runs c run (first_frame d input) w new
          (refl, h))
      where
        go :
            (r : Result SagaOutcome × Frame × W)
            → Ends
                (IsMoved d input view status_of is_free cat apart runs c run)
                (IsUndoable d input view status_of is_free cat apart runs c)
                r
            → IsSettled view c (elim r.0 [
              | returned o ↦ (returned o, r.2)
              | thrown e ↦ recover d input run c.tier false e r.1 r.2
            ])
        go (returned o, f, w') (_, not_rolled, t) =
            ((λ _. (t.0.database_ref, t.1)), λ rolled. absurd (not_rolled rolled))
        go (thrown e, f, w') undoable = recover-IsSettled e f w' new undoable
