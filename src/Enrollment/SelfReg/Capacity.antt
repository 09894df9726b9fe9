-- ===== src/Enrollment/SelfReg/Capacity.antt =====
-- No history of registrations and decisions takes a section over its seat cap.
use lms_saas.Prelude.{
  ℕ, ◌+◌, ◌≤◌, ◌≡◌, inl, inr, refl, sym, subst, Bool, true, false, ◌||◌, Option, none, some, List,
  [], ◌∷◌, Text, text_eq, starts_with, Lacks, All, if_case, not, All-append, find, find-All,
  update_first-All, arith, Bool-cases,
}
use lms_saas.Enrollment.SelfReg.{
  Policy, RegistrationRequest, SelfRegStore, SelfRegisterResult, DecideResult, RequestStatus,
  pending, approved, Decision, approve, deny, section_prefix, seat_key, add, active_count,
  policy_of, is_full, has, is_pending, capacity_of, upsert_found, upsert_request, register_under,
  self_register, approve_found, decide_found, decide, Call, register, rule_on, step, run, for_user,
  with_id,
}
use lms_saas.Enrollment.SelfReg.Seats.{section_of_key, active_count-add}

-- The ids of a request's section hold no colon, so its seat keys belong to that section alone.
abbrev pub IsPlain : RegistrationRequest → Type 0
IsPlain r = Lacks b':' r.org_unit_id

abbrev pub IsPlainCall : Call → Type 0
IsPlainCall (register id tenant org user) = Lacks b':' tenant × Lacks b':' org
IsPlainCall (rule_on tenant id d by) = Lacks b':' tenant

module _ (tenant org : Text) (policy : Policy) (cap : ℕ) where
  -- The observed section has this policy and cap, is not over it, and all requests are plain.
  pub record IsWithin (s : SelfRegStore) : Type 0 where
    pub ruled : policy_of s tenant org ≡ some policy
    pub capped : policy.capacity ≡ some cap
    pub seated : active_count s.enrolled tenant org ≤ cap
    pub plain : All IsPlain s.requests
    pub plain_tenant : Lacks b':' tenant
    pub plain_org : Lacks b':' org

  same-section :
      (s : SelfRegStore) (tenant' org' : Text)
      → IsWithin s
      → (tenant ≡ tenant') × (org ≡ org')
      → is_full (capacity_of (policy_of s tenant' org')) (active_count s.enrolled tenant' org')
        ≡ false
      → active_count s.enrolled tenant org + 1 ≤ cap
  unfolding is_full
  same-section s tenant' org' v (et, eo) room =
      let here : is_full (capacity_of (policy_of s tenant org)) (active_count s.enrolled tenant org)
          ≡ false =
        subst
          (λ o.
            is_full (capacity_of (policy_of s tenant o)) (active_count s.enrolled tenant o) ≡ false)
          (sym eo)
          (subst
            (λ t.
              is_full (capacity_of (policy_of s t org')) (active_count s.enrolled t org') ≡ false)
            (sym et) room) in
      ground (arith, v.ruled, v.capped, here)

  seat-within :
      (s : SelfRegStore) (tenant' org' user : Text)
      → IsWithin s
      → Lacks b':' tenant'
      → Lacks b':' org'
      → is_full (capacity_of (policy_of s tenant' org')) (active_count s.enrolled tenant' org')
        ≡ false
      → active_count (add (seat_key tenant' org' user) s.enrolled) tenant org ≤ cap
  seat-within s tenant' org' user v ht ho room =
      elim (Bool-cases (starts_with (section_prefix tenant org) (seat_key tenant' org' user))) [
        | inl same ↦ ground (
          arith,
          same-section s tenant' org' v
              (section_of_key tenant org tenant' org' user v.plain_tenant v.plain_org ht ho same)
              room,
          active_count-add s.enrolled (seat_key tenant' org' user) tenant org,
        )
        | inr other ↦
            ground
              (arith, v.seated, active_count-add s.enrolled (seat_key tenant' org' user) tenant org)
      ]

  IsWithin-requests :
      (s : SelfRegStore) (rs : List RegistrationRequest)
      → IsWithin s
      → All IsPlain rs
      → IsWithin (record s { requests = rs })
  unfolding policy_of
  IsWithin-requests s rs v all = record {
    ruled = v.ruled;
    capped = v.capped;
    seated = v.seated;
    plain = all;
    plain_tenant = v.plain_tenant;
    plain_org = v.plain_org;
  }

  IsWithin-seat :
      (s : SelfRegStore) (rs : List RegistrationRequest) (tenant' org' user : Text)
      → IsWithin s
      → Lacks b':' tenant'
      → Lacks b':' org'
      → is_full (capacity_of (policy_of s tenant' org')) (active_count s.enrolled tenant' org')
        ≡ false
      → All IsPlain rs
      → IsWithin
          (record s { requests = rs; enrolled = add (seat_key tenant' org' user) s.enrolled })
  unfolding policy_of
  IsWithin-seat s rs tenant' org' user v ht ho room all = record {
    ruled = v.ruled;
    capped = v.capped;
    seated = seat-within s tenant' org' user v ht ho room;
    plain = all;
    plain_tenant = v.plain_tenant;
    plain_org = v.plain_org;
  }

  upsert-IsPlain :
      (o : Option RegistrationRequest) (rs : List RegistrationRequest) (id tenant' org' user : Text)
      (status : RequestStatus) (b : Bool)
      → Lacks b':' org'
      → All IsPlain rs
      → All IsPlain (upsert_found o rs id tenant' org' user status b).1
  unfolding upsert_found
  upsert-IsPlain none rs id tenant' org' user status b ho all = All-append IsPlain rs _ all (ho, tt)
  upsert-IsPlain (some r) rs id tenant' org' user status b ho all =
      update_first-All IsPlain _ _ rs (λ a h _. h) all

  register-IsWithin :
      (o : Option Policy) (s : SelfRegStore) (id tenant' org' user : Text)
      → policy_of s tenant' org' ≡ o
      → IsWithin s
      → Lacks b':' tenant'
      → Lacks b':' org'
      → IsWithin (register_under o s id tenant' org' user).1
  unfolding register_under upsert_request
  register-IsWithin none s id tenant' org' user e v ht ho = v
  register-IsWithin (some p) s id tenant' org' user e v ht ho =
      if_case (λ (r : SelfRegisterResult × SelfRegStore). IsWithin r.1) (not p.is_open) _ _ (λ _. v)
        λ _.
          if_case (λ (r : SelfRegisterResult × SelfRegStore). IsWithin r.1)
            (has (seat_key tenant' org' user) s.enrolled) _ _ (λ _. v)
            λ _.
              if_case (λ (r : SelfRegisterResult × SelfRegStore). IsWithin r.1)
                (p.requires_approval || is_full p.capacity (active_count s.enrolled tenant' org')) _
                _
                (λ _. IsWithin-requests s _ v (
                  upsert-IsPlain (find (for_user tenant' org' user) s.requests) s.requests id
                    tenant' org' user pending false ho v.plain))
                λ room. IsWithin-seat s _ tenant' org' user v ht ho (ground (arith, e, room)) (
                  upsert-IsPlain (find (for_user tenant' org' user) s.requests) s.requests id
                    tenant' org' user approved true ho v.plain)

  decide-IsWithin :
      (o : Option RegistrationRequest) (s : SelfRegStore) (tenant' id : Text) (d : Decision)
      (by : Option Text)
      → find (with_id tenant' id) s.requests ≡ o
      → IsWithin s
      → Lacks b':' tenant'
      → IsWithin (decide_found o s tenant' id d by).1
  unfolding decide_found approve_found
  decide-IsWithin none s tenant' id d by e v ht = v
  decide-IsWithin (some r) s tenant' id deny by e v ht =
      if_case (λ (r : DecideResult × SelfRegStore). IsWithin r.1) (is_pending r.status) _ _
        (λ _.
          IsWithin-requests s _ v (update_first-All IsPlain _ _ s.requests (λ a h _. h) v.plain))
        (λ _. v)
  decide-IsWithin (some r) s tenant' id approve by e v ht =
      if_case (λ (r : DecideResult × SelfRegStore). IsWithin r.1) (is_pending r.status) _ _
        (λ _.
          if_case (λ (r : DecideResult × SelfRegStore). IsWithin r.1)
            (is_full (capacity_of (policy_of s tenant' r.org_unit_id))
              (active_count s.enrolled tenant' r.org_unit_id))
            _ _ (λ _. v)
            λ room.
              IsWithin-seat s _ tenant' r.org_unit_id r.user_id v ht
                (find-All IsPlain (with_id tenant' id) s.requests r v.plain e) room
                (update_first-All IsPlain _ _ s.requests (λ a h _. h) v.plain))
        (λ _. v)

  step-IsWithin : (s : SelfRegStore) (c : Call) → IsPlainCall c → IsWithin s → IsWithin (step s c)
  unfolding step self_register decide
  step-IsWithin s (register id tenant' org' user) h v =
      register-IsWithin (policy_of s tenant' org') s id tenant' org' user refl v h.0 h.1
  step-IsWithin s (rule_on tenant' id d by) h v =
      decide-IsWithin (find (with_id tenant' id) s.requests) s tenant' id d by refl v h

  -- However registrations and decisions follow one another, for any tenants and sections, a section
  -- that starts within its seat cap stays within it (ids of tenants and sections without a colon).
  pub run-IsWithin :
      (s : SelfRegStore) (cs : List Call) → All IsPlainCall cs → IsWithin s → IsWithin (run s cs)
  unfolding run
  run-IsWithin s [] h v = v
  run-IsWithin s (c ∷ cs) h v = run-IsWithin (step s c) cs h.1 (step-IsWithin s c h.0 v)
