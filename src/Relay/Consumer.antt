-- ===== src/Relay/Consumer.antt =====
-- services/relay/src/consumer.ts: the body of `POST /events`, from an envelope. `trim` is the string
-- method.
use lms_saas.Prelude.{
  Bool, true, Option, none, some, List, [], ◌∷◌, Text, text, text_eq, ◌==◌, if◌then◌else◌,
}
use lms_saas.Audit.Json.{
  Value, string, array, Values, no_values, value, Members, no_members, member,
}
use lms_saas.Relay.Store.{EventEnvelope, Delivery}

pub record FanOutRequest : Type 0 where
  pub event_type : Text
  pub title : Text
  pub recipient_ids : List Text
  pub event_data : Members

-- `payload[key]`
abbrev field : Text → Members → Option Value
field key no_members = none
field key (member k v ms) = if k == key then some v else field key ms

module _ (trim : Text → Text) where
  abbrev is_blank : Text → Bool
  is_blank s = trim s == []

  -- The strings of an array that are not blank.
  abbrev pub named : Values → List Text
  named no_values = []
  named (value (string s) vs) = if is_blank s then named vs else s ∷ named vs
  named (value _ vs) = named vs

  abbrev pub recipients_of : Option Value → List Text
  recipients_of (some (array vs)) = named vs
  recipients_of _ = []

  abbrev title_of : Text → Option Value → Text
  title_of event_type (some (string s)) = if is_blank s then event_type else trim s
  title_of event_type _ = event_type

  abbrev request_of : EventEnvelope → List Text → Option FanOutRequest
  request_of e [] = none
  request_of e (r ∷ rs) = some (record {
    event_type = e.event_type;
    title = title_of e.event_type (field (text "title") e.payload);
    recipient_ids = r ∷ rs;
    event_data = e.payload;
  })

  -- fanOutRequestFromEvent
  unfoldable pub fan_out_request_from_event : EventEnvelope → Option FanOutRequest
  fan_out_request_from_event e =
      request_of e (recipients_of (field (text "recipientIds") e.payload))

  -- notificationConsumerHandler
  unfoldable pub notification_consumer_handler : {W : Type 0} → Delivery W → Delivery W
  unfolding fan_out_request_from_event
  notification_consumer_handler fan_out e w = elim (fan_out_request_from_event e) [
    | none ↦ (true, w)
    | some request ↦ fan_out e w
  ]
