-- ===== src/Enrollment/SelfReg/Decisions.antt =====
-- What a decision settles, and that approval and a seat go together.
use lms_saas.Prelude.{
  ◌≡◌, ◌⊎◌, inl, inr, refl, Bool, true, false, not, ◌||◌, Option, none, some, List, [], ◌∷◌, Text,
  text_eq, eq_iff, All, All-append, All-map, find, find-holds, update_first-All,
  update_first-All_found, if_case, arith,
}
use lms_saas.Enrollment.SelfReg.{
  Policy, RegistrationRequest, SelfRegStore, SelfRegisterResult, DecideResult, RequestStatus,
  pending, approved, Decision, approve, deny, seat_key, has, add, active_count, policy_of, is_full,
  is_pending, capacity_of, upsert_found, upsert_request, register_under, self_register,
  approve_found, decide_found, decide, Call, register, rule_on, step, run, for_user, with_id,
  decided, restated, refused,
}
use lms_saas.Enrollment.SelfReg.Seats.{has-add_self, has-add_keep}

abbrev pub is_approved : RequestStatus → Bool
is_approved approved = true
is_approved _ = false

-- The request is not approved, or its user holds the seat.
abbrev pub IsSeated : List Text → RegistrationRequest → Type 0
IsSeated enrolled r =
    (is_approved r.status ≡ false)
    ⊎ (has (seat_key r.tenant_id r.org_unit_id r.user_id) enrolled ≡ true)

abbrev pub IsConsistent : SelfRegStore → Type 0
IsConsistent s = All (IsSeated s.enrolled) s.requests

IsSeated-add :
    (k : Text) (enrolled : List Text) (rs : List RegistrationRequest)
    → All (IsSeated enrolled) rs
    → All (IsSeated (add k enrolled)) rs
IsSeated-add k enrolled rs all = All-map (IsSeated enrolled) (IsSeated (add k enrolled)) rs go all
  where
    go : (r : RegistrationRequest) → IsSeated enrolled r → IsSeated (add k enrolled) r
    go r (inl h) = inl h
    go r (inr h) = inr (has-add_keep _ k enrolled h)

key_of_user :
    (tenant org user : Text) (r : RegistrationRequest)
    → for_user tenant org user r ≡ true
    → seat_key r.tenant_id r.org_unit_id r.user_id ≡ seat_key tenant org user
key_of_user tenant org user r h =
    ground (arith, eq_iff r.tenant_id tenant, eq_iff r.org_unit_id org, eq_iff r.user_id user)

upsert-IsSeated :
    (o : Option RegistrationRequest) (rs : List RegistrationRequest) (enrolled : List Text)
    (id tenant org user : Text) (status : RequestStatus) (b : Bool)
    → (is_approved status ≡ false) ⊎ (has (seat_key tenant org user) enrolled ≡ true)
    → All (IsSeated enrolled) rs
    → All (IsSeated enrolled) (upsert_found o rs id tenant org user status b).1
unfolding upsert_found
upsert-IsSeated none rs enrolled id tenant org user status b h all =
    All-append (IsSeated enrolled) rs _ all (h, tt)
upsert-IsSeated (some r) rs enrolled id tenant org user status b h all =
    update_first-All (IsSeated enrolled) (for_user tenant org user) (restated status b) rs
      (λ a _ e. ground (arith, h, key_of_user tenant org user a e)) all

register-IsConsistent :
    (o : Option Policy) (s : SelfRegStore) (id tenant org user : Text)
    → IsConsistent s
    → IsConsistent (register_under o s id tenant org user).1
unfolding register_under upsert_request
register-IsConsistent none s id tenant org user c = c
register-IsConsistent (some p) s id tenant org user c =
    if_case After (not p.is_open) _ _ (λ _. c)
      λ _.
        if_case After (has (seat_key tenant org user) s.enrolled) _ _ (λ _. c)
          λ _.
            if_case After
              (p.requires_approval || is_full p.capacity (active_count s.enrolled tenant org)) _ _
              (λ _.
                upsert-IsSeated (find (for_user tenant org user) s.requests) s.requests s.enrolled
                  id tenant org user pending false (inl refl) c)
              λ _.
                upsert-IsSeated (find (for_user tenant org user) s.requests) s.requests
                  (add (seat_key tenant org user) s.enrolled) id tenant org user approved true
                  (inr (has-add_self (seat_key tenant org user) s.enrolled))
                  (IsSeated-add (seat_key tenant org user) s.enrolled s.requests c)
  where
    After : SelfRegisterResult × SelfRegStore → Type 0
    After r = IsConsistent r.1

seat_of_found :
    (s : SelfRegStore) (tenant id : Text) (r a : RegistrationRequest)
    → find (with_id tenant id) s.requests ≡ some r
    → find (with_id tenant id) s.requests ≡ some a
    → has
        (seat_key a.tenant_id a.org_unit_id a.user_id)
        (add (seat_key tenant r.org_unit_id r.user_id) s.enrolled)
      ≡ true
seat_of_found s tenant id r a e h = ground (
  arith,
  has-add_self (seat_key tenant r.org_unit_id r.user_id) s.enrolled,
  find-holds (with_id tenant id) s.requests a h,
  eq_iff a.id id,
  eq_iff a.tenant_id tenant,
)

decide-IsConsistent :
    (o : Option RegistrationRequest) (s : SelfRegStore) (tenant id : Text) (d : Decision)
    (by : Option Text)
    → find (with_id tenant id) s.requests ≡ o
    → IsConsistent s
    → IsConsistent (decide_found o s tenant id d by).1
unfolding decide_found approve_found
decide-IsConsistent none s tenant id d by e c = c
decide-IsConsistent (some r) s tenant id deny by e c =
    if_case (λ (a : DecideResult × SelfRegStore). IsConsistent a.1) (is_pending r.status) _ _
      (λ _. update_first-All (IsSeated s.enrolled) _ _ s.requests (λ a _ _. inl refl) c) (λ _. c)
decide-IsConsistent (some r) s tenant id approve by e c =
    if_case After (is_pending r.status) _ _
      (λ _.
        if_case After
          (is_full (capacity_of (policy_of s tenant r.org_unit_id))
            (active_count s.enrolled tenant r.org_unit_id))
          _ _ (λ _. c)
          λ _.
            update_first-All_found (IsSeated (add key s.enrolled)) (with_id tenant id)
              (decided approved by) s.requests seat (IsSeated-add key s.enrolled s.requests c))
      (λ _. c)
  where
    After : DecideResult × SelfRegStore → Type 0
    After a = IsConsistent a.1

    key : Text
    key = seat_key tenant r.org_unit_id r.user_id

    seat :
        (a : RegistrationRequest)
        → find (with_id tenant id) s.requests ≡ some a
        → IsSeated (add key s.enrolled) (decided approved by a)
    seat a h = inr (seat_of_found s tenant id r a e h)

step-IsConsistent : (s : SelfRegStore) (c : Call) → IsConsistent s → IsConsistent (step s c)
unfolding step self_register decide
step-IsConsistent s (register id tenant org user) c =
    register-IsConsistent (policy_of s tenant org) s id tenant org user c
step-IsConsistent s (rule_on tenant id d by) c =
    decide-IsConsistent (find (with_id tenant id) s.requests) s tenant id d by refl c

-- After any history of registrations and decisions, every approved request is backed by a seat of
-- its user in its section, if that was so at the start.
pub run-IsConsistent :
    (s : SelfRegStore) (cs : List Call) → IsConsistent s → IsConsistent (run s cs)
unfolding run
run-IsConsistent s [] c = c
run-IsConsistent s (x ∷ cs) c = run-IsConsistent (step s x) cs (step-IsConsistent s x c)

-- The request was decided by this call.
abbrev pub settles : DecideResult → Bool
settles (DecideResult.enrolled_now r) = true
settles (refused r) = true
settles _ = false

-- A decision that neither approves nor denies (no such request, not pending, or the section is
-- full) leaves the store as it was.
pub decide-turned_down :
    (s : SelfRegStore) (tenant id : Text) (d : Decision) (by : Option Text)
    → settles (decide s tenant id d by).0 ≡ false
    → (decide s tenant id d by).1 ≡ s
unfolding decide decide_found approve_found
decide-turned_down s tenant id deny by h = ground arith
decide-turned_down s tenant id approve by h = ground arith
