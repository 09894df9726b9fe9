-- ===== src/Enrollment/SelfReg/Settled.antt =====
-- A decision on a registration request stands: services/enrollment/src/selfreg.memory.ts.
use lms_saas.Prelude.{
  ◌≡◌, refl, sym, ap, ◌∙◌, inl, inr, Bool-cases, Bool, true, false, not, ◌||◌, Option, none, some,
  List, [], ◌∷◌, Text, text_eq, eq_iff, All, update_first, find, find-holds, find-update_first,
  find-append_some, if_case, arith,
}
use lms_saas.Enrollment.SelfReg.{
  Policy, RegistrationRequest, SelfRegStore, SelfRegisterResult, DecideResult, RequestStatus,
  active_count, has, seat_key, is_full, pending, approved, denied, Decision, approve, deny,
  policy_of, is_pending, upsert_found, upsert_request, register_under, self_register, approve_found,
  decide_found, decide, Call, register, rule_on, step, run, for_user, with_id, decided, restated,
  not_pending,
}
use lms_saas.Enrollment.SelfReg.Decisions.{settles}

-- The call is not a registration that restates the request: one by its user for its section.
abbrev pub IsOther : RegistrationRequest → Call → Type 0
IsOther r (register id tenant org user) = for_user tenant org user r ≡ false
IsOther r (rule_on tenant id d by) = Unit

decided-not_pending :
    (s : SelfRegStore) (tenant id : Text) (d : Decision) (by : Option Text)
    (r : RegistrationRequest)
    → find (with_id tenant id) s.requests ≡ some r
    → is_pending r.status ≡ false
    → decide s tenant id d by ≡ (not_pending, s)
unfolding decide decide_found
decided-not_pending s tenant id deny by r e h = ground arith
decided-not_pending s tenant id approve by r e h = ground arith

found_after :
    (s : SelfRegStore) (tenant id : Text) (status : RequestStatus) (by : Option Text)
    (r : RegistrationRequest)
    → find (with_id tenant id) s.requests ≡ some r
    → find (with_id tenant id) (update_first (with_id tenant id) (decided status by) s.requests)
      ≡ some (decided status by r)
found_after s tenant id status by r e =
    find-update_first (with_id tenant id) (decided status by) s.requests r e
      (find-holds (with_id tenant id) s.requests r e)

-- A change of some other element leaves the one that is found.
find-update_first_other {ℓ} :
    {A : Type ℓ} (p q : A → Bool) (f : A → A) (xs : List A) (a : A)
    → ((x : A) → q (f x) ≡ q x)
    → find q xs ≡ some a
    → p a ≡ false
    → find q (update_first p f xs) ≡ some a
find-update_first_other p q f [] a same found other = cc
find-update_first_other p q f (x ∷ xs) a same found other =
    ground (arith, same x, find-update_first_other p q f xs a same)

module _ (tenant id : Text) (r : RegistrationRequest) where
  abbrev Found : List RegistrationRequest → Type 0
  Found rs = find (with_id tenant id) rs ≡ some r

  upsert-Found :
      (o : Option RegistrationRequest) (rs : List RegistrationRequest) (new t org user : Text)
      (status : RequestStatus) (b : Bool)
      → for_user t org user r ≡ false
      → Found rs
      → Found (upsert_found o rs new t org user status b).1
  unfolding upsert_found
  upsert-Found none rs new t org user status b other found =
      find-append_some (with_id tenant id) rs _ r found
  upsert-Found (some x) rs new t org user status b other found =
      find-update_first_other (for_user t org user) (with_id tenant id) (restated status b) rs r
        (λ y. refl) found other

  register-Found :
      (o : Option Policy) (s : SelfRegStore) (new t org user : Text)
      → for_user t org user r ≡ false
      → Found s.requests
      → Found (register_under o s new t org user).1.requests
  unfolding register_under upsert_request
  register-Found none s new t org user other found = found
  register-Found (some p) s new t org user other found =
      if_case After (not p.is_open) _ _ (λ _. found)
        λ _.
          if_case After (has (seat_key t org user) s.enrolled) _ _ (λ _. found)
            λ _.
              if_case After
                (p.requires_approval || is_full p.capacity (active_count s.enrolled t org)) _ _
                (λ _.
                  upsert-Found (find (for_user t org user) s.requests) s.requests new t org user
                    pending false other found)
                (λ _.
                  upsert-Found (find (for_user t org user) s.requests) s.requests new t org user
                    approved true other found)
    where
      After : SelfRegisterResult × SelfRegStore → Type 0
      After a = Found a.1.requests

  -- A request that is pending is another one.
  apart :
      (rs : List RegistrationRequest) (t i : Text) (x : RegistrationRequest)
      → find (with_id t i) rs ≡ some x
      → is_pending r.status ≡ false
      → Found rs
      → is_pending x.status ≡ true
      → with_id t i r ≡ false
  apart rs t i x e past found waits = elim (Bool-cases (with_id t i r)) [
    | inr other ↦ other
    | inl mine ↦
        let own = find-holds (with_id tenant id) rs r found in
        let same_id : i ≡ id = ground (arith, mine, own, eq_iff r.id i, eq_iff r.id id) in
        let same_tenant : t ≡ tenant =
          ground (arith, mine, own, eq_iff r.tenant_id t, eq_iff r.tenant_id tenant) in
        let both : some x ≡ some r =
          sym e
          ∙ ap (λ k. find (with_id k i) rs) same_tenant
          ∙ ap (λ k. find (with_id tenant k) rs) same_id
          ∙ found in
        absurd (ground (arith, both, past, waits))
  ]

  ruled-Found :
      (rs : List RegistrationRequest) (t i : Text) (status : RequestStatus) (by : Option Text)
      (x : RegistrationRequest)
      → find (with_id t i) rs ≡ some x
      → is_pending r.status ≡ false
      → Found rs
      → is_pending x.status ≡ true
      → Found (update_first (with_id t i) (decided status by) rs)
  ruled-Found rs t i status by x e past found waits =
      find-update_first_other (with_id t i) (with_id tenant id) (decided status by) rs r (λ y. refl)
        found (apart rs t i x e past found waits)

  decide-Found :
      (o : Option RegistrationRequest) (s : SelfRegStore) (t i : Text) (d : Decision)
      (by : Option Text)
      → find (with_id t i) s.requests ≡ o
      → is_pending r.status ≡ false
      → Found s.requests
      → Found (decide_found o s t i d by).1.requests
  unfolding decide_found approve_found
  decide-Found none s t i d by e past found = found
  decide-Found (some x) s t i deny by e past found = elim (Bool-cases (is_pending x.status)) [
    | inl waits ↦ rw waits (ruled-Found s.requests t i denied by x e past found waits)
    | inr shut ↦ rw shut found
  ]
  decide-Found (some x) s t i approve by e past found = elim (Bool-cases (is_pending x.status)) [
    | inr shut ↦ rw shut found
    | inl waits ↦ rw waits (
        if_case (λ (a : DecideResult × SelfRegStore). Found a.1.requests) _ _ _ (λ _. found)
          (λ _. ruled-Found s.requests t i approved by x e past found waits))
  ]

  step-Found :
      (s : SelfRegStore) (c : Call)
      → IsOther r c
      → is_pending r.status ≡ false
      → Found s.requests
      → Found (step s c).requests
  unfolding step self_register decide
  step-Found s (register new t org user) other past found =
      register-Found (policy_of s t org) s new t org user other found
  step-Found s (rule_on t i d by) other past found =
      decide-Found (find (with_id t i) s.requests) s t i d by refl past found

  run-Found :
      (s : SelfRegStore) (cs : List Call)
      → All (IsOther r) cs
      → is_pending r.status ≡ false
      → Found s.requests
      → Found (run s cs).requests
  unfolding run
  run-Found s [] others past found = found
  run-Found s (c ∷ cs) others past found =
      run-Found (step s c) cs others.1 past (step-Found s c others.0 past found)

IsOther-decided :
    (r : RegistrationRequest) (status : RequestStatus) (by : Option Text) (cs : List Call)
    → All (IsOther r) cs
    → All (IsOther (decided status by r)) cs
IsOther-decided r status by [] h = tt
IsOther-decided r status by (register new t org user ∷ cs) h =
    (h.0, IsOther-decided r status by cs h.1)
IsOther-decided r status by (rule_on t i d b ∷ cs) h = (tt, IsOther-decided r status by cs h.1)

settled-Found :
    (o : Option RegistrationRequest) (s : SelfRegStore) (tenant id : Text) (d : Decision)
    (by : Option Text) (r : RegistrationRequest)
    → find (with_id tenant id) s.requests ≡ o
    → o ≡ some r
    → settles (decide_found o s tenant id d by).0 ≡ true
    → (status : RequestStatus) × (is_pending status ≡ false)
      × (find (with_id tenant id) (decide_found o s tenant id d by).1.requests
          ≡ some (decided status by r))
unfolding decide_found approve_found
settled-Found o s tenant id deny by r e same h =
    (denied, refl, ground (arith, found_after s tenant id denied by r (e ∙ same)))
settled-Found o s tenant id approve by r e same h =
    (approved, refl, ground (arith, found_after s tenant id approved by r (e ∙ same)))

-- A decision stands: after a call that approved or denied a request, and whatever registrations and
-- decisions followed other than a new registration of the same user for the same section, every
-- decision on it, by anyone and either way, is answered `not_pending` and changes nothing.
pub decide-once :
    (s : SelfRegStore) (tenant id : Text) (d d' : Decision) (by by' : Option Text)
    (r : RegistrationRequest) (cs : List Call)
    → find (with_id tenant id) s.requests ≡ some r
    → settles (decide s tenant id d by).0 ≡ true
    → All (IsOther r) cs
    → let after = run (decide s tenant id d by).1 cs in
      decide after tenant id d' by' ≡ (not_pending, after)
unfolding decide
decide-once s tenant id d d' by by' r cs found h others =
    let (status, past, now) =
      settled-Found (find (with_id tenant id) s.requests) s tenant id d by r refl found h in
    decided-not_pending (run (decide s tenant id d by).1 cs) tenant id d' by' (decided status by r)
      (run-Found tenant id (decided status by r) (decide s tenant id d by).1 cs
        (IsOther-decided r status by cs others) past now)
      past
