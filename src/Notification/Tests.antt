-- ===== src/Notification/Tests.antt =====
-- An inbox with one unread notice, and a plan during the night.
use lms_saas.Prelude.{
  ℕ, ◌≡◌, refl, false, none, some, List, [], ◌∷◌, Text, text, text_eq, length, arith,
}
use lms_saas.Notification.Plan.{in_app, NewNotificationInput, PlanDeliveryInput, plan_deliveries}
use lms_saas.Notification.Store.{NotificationStore, ingest_event, ingest_all}
use lms_saas.Notification.Laws.{ingest_event-once}
use lms_saas.Notification.Quiet.{IsPlanned, addresses, plan_deliveries-IsTimely}

abbrev ids : ℕ → Text
ids n = text "id"

abbrev clock : ℕ → Text
clock n = text "now"

abbrev empty : NotificationStore
empty = record {
  notifications = [];
  preferences = [];
  inbox_claims = [];
  pref_tenant = [];
  minted = 0;
  times = 0;
}

abbrev notice : NewNotificationInput
notice = record {
  user_id = text "ada";
  category = text "grades";
  channel = in_app;
  title = text "Graded";
  body = none;
  event_data = none;
  status = none;
}

abbrev history : List (Text × Text × List NewNotificationInput)
history = (text "t", text "m2", notice ∷ []) ∷ []

abbrev after : NotificationStore
after =
    ingest_all ids clock (ingest_event ids clock empty (text "t") (text "m1") (notice ∷ [])).1
      history

ingest_event-once_example :
    ingest_event ids clock after (text "t") (text "m1") (notice ∷ []) ≡ ((false, []), after)
ingest_event-once_example =
    ingest_event-once ids clock empty (text "t") (text "m1") (notice ∷ []) (notice ∷ []) history

abbrev night : PlanDeliveryInput
night = record {
  category = text "grades";
  title = text "Graded";
  body = none;
  event_data = none;
  recipient_ids = text "ada" ∷ [];
  prefs_by_user = [];
  quiet_hours = some (record { start_hour = 22; end_hour = 7 });
  hour = 23;
}

night_rows : length (plan_deliveries night) ≡ 2
unfolding plan_deliveries
night_rows = refl

plan_deliveries-IsTimely_example :
    IsPlanned night (addresses (text "ada" ∷ [])) (plan_deliveries night)
plan_deliveries-IsTimely_example =
    plan_deliveries-IsTimely night (omega arith, omega arith, omega arith)
