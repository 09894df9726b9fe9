-- ===== src/Relay/Tests.antt =====
-- An outbox of two tenants, with a world that counts the deliveries.
use lms_saas.Prelude.{
  map, ℕ, suc, ◌≡◌, refl, Bool, true, false, none, some, List, [], ◌∷◌, Text, text, text_eq, filter,
  leb, length,
}
use mathlib.Core.List.{Permᴰ}
use lms_saas.Audit.Json.{no_members}
use lms_saas.Relay.Store.{
  OutboxRow, envelope_from_row, Delivery, is_pending, drain_rows, drain_tenant,
}
use lms_saas.Relay.Pending.{unstamped}
use lms_saas.Relay.Drain.{Delivered, drain_tenant-drained, drain_tenant-returns}
use lms_saas.Relay.Inbox.{claim_all, mark_processed, mark_processed-once}

abbrev row : Text → Text → Text → OutboxRow
row id tenant occurred_at = record {
  id = id;
  tenant_id = tenant;
  event_type = text "enrollment.created";
  actor_id = none;
  org_unit_id = none;
  payload = no_members;
  occurred_at = occurred_at;
  version = none;
  published_at = none;
}

abbrev outbox : List OutboxRow
outbox =
    row (text "1") (text "t") (text "bb")
    ∷ row (text "2") (text "u") (text "a")
    ∷ row (text "3") (text "t") (text "a")
    ∷ []

abbrev shorter : Text → Text → Bool
shorter a b = leb (length a) (length b)

abbrev counting : Delivery ℕ
counting e n = (true, suc n)

abbrev clock : Text → ℕ → Text
clock tenant n = text "now"

drain_tenant-drained_example :
    ((order : List OutboxRow) × Permᴰ order (filter (is_pending (text "t")) outbox)
      × Delivered shorter counting clock order 0
          (drain_tenant shorter counting clock outbox (text "t") 0).world)
    × (2 ≡ length (filter (is_pending (text "t")) outbox))
    × (map unstamped (drain_tenant shorter counting clock outbox (text "t") 0).rows
        ≡ map unstamped outbox)
    × (filter (is_pending (text "t")) (drain_tenant shorter counting clock outbox (text "t") 0).rows
        ≡ [])
unfolding drain_tenant drain_rows envelope_from_row
drain_tenant-drained_example =
    drain_tenant-drained shorter counting clock outbox (text "t") 0 2 refl

drain_tenant-returns_example :
    ((drain_tenant shorter counting clock outbox (text "t") 0).published
      ≡ some (length (filter (is_pending (text "t")) outbox)))
    × (filter (is_pending (text "t")) (drain_tenant shorter counting clock outbox (text "t") 0).rows
        ≡ [])
drain_tenant-returns_example =
    drain_tenant-returns shorter counting clock (λ e w. refl) outbox (text "t") 0

abbrev claims : List (Text × Text × Text)
claims = (text "notification", text "2", text "t") ∷ []

mark_processed-once_example :
    mark_processed
      (claim_all (mark_processed [] (text "notification") (text "1") (text "t")).1 claims)
      (text "notification")
      (text "1")
      (text "t")
    ≡ (false, claim_all (mark_processed [] (text "notification") (text "1") (text "t")).1 claims)
mark_processed-once_example =
    mark_processed-once [] (text "notification") (text "1") (text "t") (text "t") claims
