-- ===== src/Enrollment/SelfReg.antt =====
-- services/enrollment/src/selfreg.memory.ts, with the types of selfreg.ts. The id that `generateId`
-- would return is an argument; every timestamp of this store is `new Date(0).toISOString()`.
pub mod Seats
pub mod Capacity
pub mod Decisions
pub mod Settled
use lms_saas.Prelude.{
  ℕ, suc, Bool, true, false, not, ◌&&◌, ◌||◌, Option, none, some, List, [], ◌∷◌, ◌++◌, Text, text,
  text_eq, ◌==◌, starts_with, leb, if◌then◌else◌, find, filter, length, update_first,
}

-- A `StoredPolicy`; `capacity` is `none` for an unlimited section.
pub record Policy : Type 0 where
  pub tenant_id : Text
  pub org_unit_id : Text
  pub is_open : Bool
  pub requires_approval : Bool
  pub capacity : Option ℕ

-- `PolicyInput`: an absent field is `none`; `capacity` may be present and null.
pub record PolicyInput : Type 0 where
  pub is_open : Option Bool
  pub requires_approval : Option Bool
  pub capacity : Option (Option ℕ)

pub data RequestStatus : Type 0 where
  pending approved denied : RequestStatus

abbrev pub is_pending : RequestStatus → Bool
is_pending pending = true
is_pending _ = false

pub record RegistrationRequest : Type 0 where
  pub id : Text
  pub tenant_id : Text
  pub org_unit_id : Text
  pub user_id : Text
  pub status : RequestStatus
  pub created_at : Text
  pub decided_at : Option Text
  pub decided_by : Option Text

-- The private fields of `MemorySelfRegStore`; `enrolled` is the set of seat keys.
pub record SelfRegStore : Type 0 where
  pub policies : List Policy
  pub requests : List RegistrationRequest
  pub enrolled : List Text

pub data SelfRegisterResult : Type 0 where
  enrolled_now waiting : RegistrationRequest → SelfRegisterResult
  closed already_enrolled : SelfRegisterResult

pub data DecideResult : Type 0 where
  enrolled_now refused : RegistrationRequest → DecideResult
  not_found not_pending at_capacity : DecideResult

pub data Decision : Type 0 where
  approve deny : Decision

-- `new Date(0).toISOString()`
abbrev pub epoch : Text
epoch = text "1970-01-01T00:00:00.000Z"

-- `${tenantId}:${orgUnitId}:` and `${tenantId}:${orgUnitId}:${userId}`
unfoldable pub section_prefix : Text → Text → Text
section_prefix tenant org = tenant ++ (b':' ∷ (org ++ (b':' ∷ [])))

unfoldable pub seat_key : Text → Text → Text → Text
seat_key tenant org user = tenant ++ (b':' ∷ (org ++ (b':' ∷ user)))

-- `enrolled.has(key)` and `enrolled.add(key)`
abbrev pub has : Text → List Text → Bool
has k [] = false
has k (j ∷ s) = (j == k) || has k s

unfoldable pub add : Text → List Text → List Text
add k s = if has k s then s else s ++ (k ∷ [])

abbrev pub at_section : Text → Text → Policy → Bool
at_section tenant org p = (p.tenant_id == tenant) && (p.org_unit_id == org)

unfoldable pub policy_of : SelfRegStore → Text → Text → Option Policy
policy_of s tenant org = find (at_section tenant org) s.policies

unfoldable pub active_count : List Text → Text → Text → ℕ
unfolding section_prefix
active_count enrolled tenant org =
    length (filter (starts_with (section_prefix tenant org)) enrolled)

-- The seat cap is reached.
unfoldable pub is_full : Option ℕ → ℕ → Bool
is_full none taken = false
is_full (some cap) taken = leb cap taken

abbrev replace {ℓ} : {A : Type ℓ} → Option A → A → A
replace none old = old
replace (some new) old = new

abbrev with_input : PolicyInput → Policy → Policy
with_input i p = record p {
  is_open = replace i.is_open p.is_open;
  requires_approval = replace i.requires_approval p.requires_approval;
  capacity = replace i.capacity p.capacity;
}

abbrev new_policy : Text → Text → Policy
new_policy tenant org = record {
  tenant_id = tenant;
  org_unit_id = org;
  is_open = false;
  requires_approval = false;
  capacity = none;
}

apply_policy : Option Policy → List Policy → Text → Text → PolicyInput → List Policy
apply_policy none ps tenant org i = ps ++ (with_input i (new_policy tenant org) ∷ [])
apply_policy (some p) ps tenant org i = update_first (at_section tenant org) (with_input i) ps

-- setPolicy
unfoldable pub set_policy : SelfRegStore → Text → Text → PolicyInput → SelfRegStore
unfolding apply_policy policy_of
set_policy s tenant org i = record s {
  policies = apply_policy (policy_of s tenant org) s.policies tenant org i;
}

abbrev pub for_user : Text → Text → Text → RegistrationRequest → Bool
for_user tenant org user r =
    (r.tenant_id == tenant) && ((r.org_unit_id == org) && (r.user_id == user))

abbrev pub restated : RequestStatus → Bool → RegistrationRequest → RegistrationRequest
restated status decided r = record r {
  status = status;
  decided_at = if decided then some epoch else r.decided_at;
}

abbrev pub new_request : Text → Text → Text → Text → RequestStatus → Bool → RegistrationRequest
new_request id tenant org user status decided = record {
  id = id;
  tenant_id = tenant;
  org_unit_id = org;
  user_id = user;
  status = status;
  created_at = epoch;
  decided_at = if decided then some epoch else none;
  decided_by = none;
}

unfoldable pub upsert_found :
    Option RegistrationRequest
    → List RegistrationRequest
    → Text
    → Text
    → Text
    → Text
    → RequestStatus
    → Bool
    → RegistrationRequest × List RegistrationRequest
upsert_found none rs id tenant org user status decided =
    let r = new_request id tenant org user status decided in (r, rs ++ (r ∷ []))
upsert_found (some r) rs id tenant org user status decided = (
  restated status decided r,
  update_first (for_user tenant org user) (restated status decided) rs,
)

-- upsertRequest
unfoldable pub upsert_request :
    List RegistrationRequest
    → Text
    → Text
    → Text
    → Text
    → RequestStatus
    → Bool
    → RegistrationRequest × List RegistrationRequest
unfolding upsert_found
upsert_request rs id tenant org user status decided =
    upsert_found (find (for_user tenant org user) rs) rs id tenant org user status decided

-- The body of `selfRegister` behind the lookup of the policy.
unfoldable pub register_under :
    Option Policy → SelfRegStore → Text → Text → Text → Text → SelfRegisterResult × SelfRegStore
unfolding upsert_request add active_count is_full seat_key
register_under none s id tenant org user = (closed, s)
register_under (some p) s id tenant org user =
    let key = seat_key tenant org user in
    if not p.is_open
    then (closed, s)
    else if has key s.enrolled
    then (already_enrolled, s)
    else if p.requires_approval || is_full p.capacity (active_count s.enrolled tenant org)
    then (let u = upsert_request s.requests id tenant org user pending false in
        (waiting u.0, record s { requests = u.1 }))
    else (let u = upsert_request s.requests id tenant org user approved true in
        (
          SelfRegisterResult.enrolled_now u.0,
          record s { requests = u.1; enrolled = add key s.enrolled },
        ))

-- selfRegister
unfoldable pub self_register :
    SelfRegStore → Text → Text → Text → Text → SelfRegisterResult × SelfRegStore
unfolding register_under policy_of
self_register s id tenant org user = register_under (policy_of s tenant org) s id tenant org user

-- listRequests
pub list_requests : SelfRegStore → Text → Text → (RequestStatus → Bool) → List RegistrationRequest
list_requests s tenant org wanted =
    filter (λ r. (r.tenant_id == tenant) && ((r.org_unit_id == org) && wanted r.status)) s.requests

abbrev pub with_id : Text → Text → RegistrationRequest → Bool
with_id tenant id r = (r.id == id) && (r.tenant_id == tenant)

abbrev pub decided : RequestStatus → Option Text → RegistrationRequest → RegistrationRequest
decided status by r = record r { status = status; decided_at = some epoch; decided_by = by }

abbrev pub capacity_of : Option Policy → Option ℕ
capacity_of none = none
capacity_of (some p) = p.capacity

unfoldable pub approve_found :
    SelfRegStore → Text → Text → Option Text → RegistrationRequest → DecideResult × SelfRegStore
unfolding policy_of is_full active_count add seat_key
approve_found s tenant id by r =
    if is_full (capacity_of (policy_of s tenant r.org_unit_id))
      (active_count s.enrolled tenant r.org_unit_id)
    then (at_capacity, s)
    else (
      DecideResult.enrolled_now (decided approved by r),
      record s {
        enrolled = add (seat_key tenant r.org_unit_id r.user_id) s.enrolled;
        requests = update_first (with_id tenant id) (decided approved by) s.requests;
      },
    )

unfoldable pub decide_found :
    Option RegistrationRequest
    → SelfRegStore
    → Text
    → Text
    → Decision
    → Option Text
    → DecideResult × SelfRegStore
unfolding approve_found
decide_found none s tenant id d by = (not_found, s)
decide_found (some r) s tenant id deny by =
    if is_pending r.status
    then (
      refused (decided denied by r),
      record s { requests = update_first (with_id tenant id) (decided denied by) s.requests },
    )
    else (not_pending, s)
decide_found (some r) s tenant id approve by =
    if is_pending r.status then approve_found s tenant id by r else (not_pending, s)

-- decide
unfoldable pub decide :
    SelfRegStore → Text → Text → Decision → Option Text → DecideResult × SelfRegStore
unfolding decide_found
decide s tenant id d by = decide_found (find (with_id tenant id) s.requests) s tenant id d by

-- One call of the service, for histories: the tenant of the context comes first.
pub data Call : Type 0 where
  register : Text → Text → Text → Text → Call
  rule_on : Text → Text → Decision → Option Text → Call

unfoldable pub step : SelfRegStore → Call → SelfRegStore
unfolding self_register decide
step s (register id tenant org user) = (self_register s id tenant org user).1
step s (rule_on tenant id d by) = (decide s tenant id d by).1

unfoldable pub run : SelfRegStore → List Call → SelfRegStore
unfolding step
run s [] = s
run s (c ∷ cs) = run (step s c) cs
