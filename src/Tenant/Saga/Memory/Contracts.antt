-- ===== src/Tenant/Saga/Memory/Contracts.antt =====
-- The memory stores keep the contracts that the saga's theorems ask for, for any port.
use lms_saas.Prelude.{
  ℕ, ◌≡◌, refl, Option, none, some, Option-cases, inl, inr, List, Text, find, find-holds,
  find-update_first, arith, text_eq,
}
use lms_saas.Tenant.Registry.{
  TenantRecord, TenantTier, has_id, get_tenant, assign, set_tier, set_database_ref,
}
use lms_saas.Tenant.Runs.{
  SagaRun, SagaStatus, pending, StartRunInput, MarkOptions, has_run_id, has_key, marked, start_run,
  mark_status, get_run, get_run_by_key, change,
}
use lms_saas.Tenant.Saga.{SiloPort}
use lms_saas.Tenant.Saga.Contract.{Catalog, catalog_of, Shows, IsCatalog, IsApart, IsRunStore}
use lms_saas.Tenant.Saga.Memory.{World, shown, memory_deps, row_of, run_status, key_is_free}

module _ {I : Type 0} (infra_port : SiloPort I) (ids clock : ℕ → Text) (tenant : Text) where
  pub memory-IsApart : IsApart (memory_deps infra_port ids clock) tenant (row_of tenant)
  memory-IsApart = record {
    start_keeps = λ i w. refl;
    step_keeps = λ id p w. refl;
    mark_keeps = λ id s o w. refl;
    run_keeps = λ id w. refl;
    key_keeps = λ key w. refl;
    project_keeps = λ region w. refl;
    branch_keeps = λ project w. refl;
    migrations_keep = λ t w. refl;
    data_keeps = λ t w. refl;
    deprovision_keeps = λ t w. refl;
  }

  assign-row :
      (f : TenantRecord → TenantRecord) (ts : List TenantRecord) (t : TenantRecord)
      → ((t : TenantRecord) → (f t).id ≡ t.id)
      → get_tenant ts tenant ≡ some t
      → get_tenant (assign ts tenant f).1 tenant ≡ some (f t)
  unfolding get_tenant assign
  assign-row f ts t same h =
      ground (
        arith,
        same t,
        find-holds (has_id tenant) ts t h,
        find-update_first (has_id tenant) f ts t h,
      )

  -- The row after an assignment to the tenant.
  assign-shows :
      (f : TenantRecord → TenantRecord) (g : Catalog → Catalog) (ts : List TenantRecord)
      (c : Catalog)
      → ((t : TenantRecord) → (f t).id ≡ t.id)
      → ((t : TenantRecord) → catalog_of (f t) ≡ g (catalog_of t))
      → shown (get_tenant ts tenant) ≡ some c
      → shown (get_tenant (assign ts tenant f).1 tenant) ≡ some (g c)
  assign-shows f g ts c same to h = elim (Option-cases (get_tenant ts tenant)) [
    | inl absent ↦ ground (arith, absent)
    | inr (t, found) ↦ ground (arith, assign-row f ts t same found, to t)
  ]

  tier-row :
      (tier : TenantTier) (w : World I) (c : Catalog)
      → row_of tenant w ≡ some c
      → Shows
          (row_of tenant)
          (record c { tier = tier })
          c
          ((memory_deps infra_port ids clock).store.set_tier tenant tier w)
  unfolding set_tier
  tier-row tier w c h =
      assign-shows (λ t. record t { tier = tier; updated_at = clock w.read })
        (λ c. record c { tier = tier }) w.tenants c (λ t. refl) (λ t. refl) h

  ref-row :
      (ref : Option Text) (w : World I) (c : Catalog)
      → row_of tenant w ≡ some c
      → Shows
          (row_of tenant)
          (record c { database_ref = ref })
          c
          ((memory_deps infra_port ids clock).store.set_database_ref tenant ref w)
  unfolding set_database_ref
  ref-row ref w c h =
      assign-shows (λ t. record t { database_ref = ref; updated_at = clock w.read })
        (λ c. record c { database_ref = ref }) w.tenants c (λ t. refl) (λ t. refl) h

  pub memory-IsCatalog : IsCatalog (memory_deps infra_port ids clock) tenant (row_of tenant)
  memory-IsCatalog = record {
    get_returns = λ w t h. ground arith;
    get_keeps = λ w. refl;
    tier_set = tier-row;
    ref_set = ref-row;
  }

  started-new :
      (i : StartRunInput) (rs : List SagaRun) (id now : Text) (r : SagaRun)
      → find (has_key i.idempotency_key) rs ≡ none
      → (start_run rs id now i).0 ≡ r
      → (r.status ≡ pending) × (r.prev_database_ref ≡ i.prev_database_ref)
  unfolding start_run
  started-new i rs id now r free h = ground arith

  marked-status :
      (id now : Text) (s : SagaStatus) (o : MarkOptions) (rs : List SagaRun) (r : SagaRun)
      → (mark_status rs now id s o).0 ≡ some r
      → (r.status ≡ s) × (find (has_run_id id) (mark_status rs now id s o).1 ≡ some r)
  unfolding mark_status change
  marked-status id now s o rs r h = elim (Option-cases (find (has_run_id id) rs)) [
    | inl absent ↦ ground (arith, absent)
    | inr (q, found) ↦ ground (
      arith,
      found,
      find-holds (has_run_id id) rs q found,
      find-update_first (has_run_id id) (marked now s o) rs q found,
    )
  ]

  marked-nothing :
      (id now : Text) (s : SagaStatus) (o : MarkOptions) (rs : List SagaRun)
      → (mark_status rs now id s o).0 ≡ none
      → find (has_run_id id) (mark_status rs now id s o).1 ≡ none
  unfolding mark_status change
  marked-nothing id now s o rs h = elim (Option-cases (find (has_run_id id) rs)) [
    | inl absent ↦ ground (arith, absent)
    | inr (q, found) ↦ ground (arith, found)
  ]

  pub memory-IsRunStore :
      IsRunStore (memory_deps infra_port ids clock) tenant run_status key_is_free
  unfolding get_run_by_key get_run
  memory-IsRunStore = record {
    key_freed = λ key w h. ground arith;
    key_stays_free = λ key w h. h;
    started = λ i w r free h. elim (Option-cases (find (has_key i.idempotency_key) w.runs)) [
      | inl new ↦ started-new i w.runs (ids w.minted) (clock w.read) r new (ground arith)
      | inr (q, old) ↦ ground (arith, old)
    ];
    marked_status = λ id s o w r h. ground (arith, marked-status id (clock w.read) s o w.runs r);
    marked_nothing = λ id s o w h. ground (arith, marked-nothing id (clock w.read) s o w.runs);
    run_found = λ id w r h. ground arith;
  }
