-- ===== src/Relay/Store.antt =====
-- services/relay/src/store.ts and store.memory.ts. A delivery is an action on a world that returns
-- (true) or throws (false); `precedes` is whether `a.localeCompare(b) <= 0`; `clock` gives the
-- times of a tenant's stamps, one by one.
use lms_saas.Prelude.{
  ℕ, zero, suc, ◌+◌, Bool, true, false, ◌&&◌, Option, none, some, List, [], ◌∷◌, ◌++◌, Text,
  text_eq, ◌==◌, any, filter, map, if◌then◌else◌,
}
use lms_saas.Audit.Json.{Members}

-- EventEnvelope
pub record EventEnvelope : Type 0 where
  pub id : Text
  pub event_type : Text
  pub tenant_id : Text
  pub occurred_at : Text
  pub actor_id : Option Text
  pub org_unit_id : Option Text
  pub version : ℕ
  pub payload : Members

-- A StoredOutboxRow.
pub record OutboxRow : Type 0 where
  pub id : Text
  pub tenant_id : Text
  pub event_type : Text
  pub actor_id : Option Text
  pub org_unit_id : Option Text
  pub payload : Members
  pub occurred_at : Text
  pub version : Option ℕ
  pub published_at : Option Text

abbrev or_one : Option ℕ → ℕ
or_one none = 1
or_one (some v) = v

-- envelopeFromRow
unfoldable pub envelope_from_row : OutboxRow → EventEnvelope
envelope_from_row r = record {
  id = r.id;
  event_type = r.event_type;
  tenant_id = r.tenant_id;
  occurred_at = r.occurred_at;
  actor_id = r.actor_id;
  org_unit_id = r.org_unit_id;
  version = or_one r.version;
  payload = r.payload;
}

abbrev pub Delivery : Type 0 → Type 0
Delivery W = EventEnvelope → W → Bool × W

-- A handler is called as a delivery is.
abbrev Handlers : Type 0 → Type 0
Handlers W = List (Delivery W)

-- `routes[type] ?? []`
abbrev handlers_of : {W : Type 0} → List (Text × Handlers W) → Text → Handlers W
handlers_of [] event_type = []
handlers_of ((t, hs) ∷ routes) event_type =
    if t == event_type then hs else handlers_of routes event_type

-- InProcessTransport.on
unfoldable pub subscribe :
    {W : Type 0} → List (Text × Handlers W) → Text → Delivery W → List (Text × Handlers W)
subscribe [] event_type h = (event_type, h ∷ []) ∷ []
subscribe ((t, hs) ∷ routes) event_type h =
    let rest = subscribe routes event_type h in
    if t == event_type then (t, hs ++ (h ∷ [])) ∷ routes else (t, hs) ∷ rest

abbrev call_all : {W : Type 0} → Handlers W → Delivery W
call_all [] e w = (true, w)
call_all (h ∷ hs) e w =
    let r = h e w in elim r.0 [ true ↦ call_all hs e r.1 | false ↦ (false, r.1) ]

-- InProcessTransport.deliver
unfoldable pub deliver_in_process : {W : Type 0} → List (Text × Handlers W) → Delivery W
deliver_in_process routes e w = call_all (handlers_of routes e.event_type) e w

-- `published_at` of the row at a position.
abbrev pub stamp : ℕ → Text → List OutboxRow → List OutboxRow
stamp k now [] = []
stamp zero now (r ∷ rows) = record r { published_at = some now } ∷ rows
stamp (suc k) now (r ∷ rows) = r ∷ stamp k now rows

-- The rows with their positions.
abbrev pub indexed : ℕ → List OutboxRow → List (ℕ × OutboxRow)
indexed k [] = []
indexed k (r ∷ rows) = (k, r) ∷ indexed (suc k) rows

abbrev is_unpublished : Option Text → Bool
is_unpublished none = true
is_unpublished (some at) = false

abbrev pub is_pending : Text → OutboxRow → Bool
is_pending tenant r = (r.tenant_id == tenant) && is_unpublished r.published_at

-- What a drain returned, `none` if a delivery threw, with the rows and the world it leaves.
pub record Drained (W : Type 0) : Type 0 where
  pub published : Option ℕ
  pub rows : List OutboxRow
  pub world : W

-- listTenantIds
abbrev pub distinct : List Text → List Text → List Text
distinct seen [] = seen
distinct seen (t ∷ ts) = distinct (if any (λ s. s == t) seen then seen else seen ++ (t ∷ [])) ts

unfoldable pub list_tenant_ids : List OutboxRow → List Text
list_tenant_ids rows = distinct [] (map (λ r. r.tenant_id) rows)

module _ (precedes : Text → Text → Bool) where
  abbrev pub place : ℕ × OutboxRow → List (ℕ × OutboxRow) → List (ℕ × OutboxRow)
  place r [] = r ∷ []
  place r (s ∷ rest) =
      if precedes r.1.occurred_at s.1.occurred_at then r ∷ s ∷ rest else s ∷ place r rest

  -- sortByOccurredAt, a stable sort
  abbrev pub sort_by_occurred_at : List (ℕ × OutboxRow) → List (ℕ × OutboxRow)
  sort_by_occurred_at [] = []
  sort_by_occurred_at (r ∷ rest) = place r (sort_by_occurred_at rest)

  abbrev pub pending_of : List OutboxRow → Text → List (ℕ × OutboxRow)
  pending_of rows tenant = filter (λ r. is_pending tenant r.1) (indexed 0 rows)

  module _ {W : Type 0} (deliver : Delivery W) (clock : Text → ℕ → Text) where
    -- The loop of `drainTenant`, from the number published so far.
    unfoldable pub drain_rows : Text → List (ℕ × OutboxRow) → ℕ → List OutboxRow → W → Drained W
    drain_rows tenant [] published rows w = record {
      published = some published;
      rows = rows;
      world = w;
    }
    drain_rows tenant (r ∷ rest) published rows w =
        let d = deliver (envelope_from_row r.1) w in
        elim d.0 [
          | true ↦
              drain_rows tenant rest (suc published) (stamp r.0 (clock tenant published) rows) d.1
          | false ↦ record { published = none; rows = rows; world = d.1 }
        ]

    -- drainTenant
    unfoldable pub drain_tenant : List OutboxRow → Text → W → Drained W
    unfolding drain_rows
    drain_tenant rows tenant w =
        drain_rows tenant (sort_by_occurred_at (pending_of rows tenant)) 0 rows w

    -- The loop of `runOnce`; a drain that throws ends the pass.
    unfoldable pub run_tenants : List Text → ℕ → List OutboxRow → W → Drained W
    unfolding drain_tenant
    run_tenants [] published rows w = record { published = some published; rows = rows; world = w }
    run_tenants (t ∷ ts) published rows w =
        let d = drain_tenant rows t w in
        elim d.published [
          | some n ↦ run_tenants ts (published + n) d.rows d.world
          | none ↦ record { published = none; rows = d.rows; world = d.world }
        ]

    -- runOnce; the summary's `tenants` is the length of the list of ids.
    unfoldable pub run_once : List OutboxRow → W → Drained W
    unfolding run_tenants
    run_once rows w = run_tenants (list_tenant_ids rows) 0 rows w
