-- ===== src/Notification/Plan.antt =====
-- services/notification/src/store.ts: the types and the fan-out planner. The hour of a date is its
-- `getUTCHours()`.
use lms_saas.Prelude.{
  ℕ, Bool, true, false, not, ◌&&◌, ◌||◌, Option, none, some, List, [], ◌∷◌, ◌++◌, Text, text,
  text_eq, ◌==◌, find, any, leb, ltb, nat_eq, if◌then◌else◌, Map, lookup,
}
use lms_saas.Audit.Json.{Members}

pub data Channel : Type 0 where
  in_app email sms push : Channel

pub data NotificationStatus : Type 0 where
  queued sent delivered failed read : NotificationStatus

abbrev pub same_channel : Channel → Channel → Bool
same_channel in_app in_app = true
same_channel email email = true
same_channel sms sms = true
same_channel push push = true
same_channel _ _ = false

abbrev pub is_in_app : Channel → Bool
is_in_app in_app = true
is_in_app _ = false

-- CHANNELS
abbrev pub channels : List Channel
channels = in_app ∷ email ∷ sms ∷ push ∷ []

pub record PreferenceRecord : Type 0 where
  pub user_id : Text
  pub channel : Channel
  pub category : Text
  pub is_enabled : Bool

pub record NewNotificationInput : Type 0 where
  pub user_id : Text
  pub category : Text
  pub channel : Channel
  pub title : Text
  pub body : Option Text
  pub event_data : Option Members
  pub status : Option NotificationStatus

pub record QuietHours : Type 0 where
  pub start_hour : ℕ
  pub end_hour : ℕ

-- `split(".")[0]`
abbrev head_of : Text → Text
head_of [] = []
head_of (u ∷ s) = if nat_eq u b'.' then [] else u ∷ head_of s

-- categoryForEvent
unfoldable pub category_for_event : Text → Text
category_for_event event_type =
    let head = head_of event_type in
    if (head == text "grade") || (head == text "grading") || (head == text "quiz")
    then text "grades"
    else if head == text "discussion"
    then text "discussions"
    else if head == text "announcement"
    then text "announcements"
    else if head == text "assignment"
    then text "assignments"
    else if head == text "enrollment"
    then text "enrollments"
    else text "general"

-- isWithinQuietHours
unfoldable pub is_within_quiet_hours : ℕ → Option QuietHours → Bool
is_within_quiet_hours hour none = false
is_within_quiet_hours hour (some q) =
    if nat_eq q.start_hour q.end_hour
    then false
    else if ltb q.start_hour q.end_hour
    then leb q.start_hour hour && ltb hour q.end_hour
    else leb q.start_hour hour || ltb hour q.end_hour

pub record PlanDeliveryInput : Type 0 where
  pub category : Text
  pub title : Text
  pub body : Option Text
  pub event_data : Option Members
  pub recipient_ids : List Text
  pub prefs_by_user : Map Text (List PreferenceRecord)
  pub quiet_hours : Option QuietHours
  pub hour : ℕ

-- DEFAULT_ENABLED_CHANNELS.includes
abbrev default_enabled : Channel → Bool
default_enabled channel = any (λ c. same_channel c channel) (in_app ∷ email ∷ [])

abbrev enabled_by : Option PreferenceRecord → Channel → Bool
enabled_by (some p) channel = p.is_enabled
enabled_by none channel = default_enabled channel

-- channelEnabled
unfoldable pub channel_enabled : Option (List PreferenceRecord) → Text → Channel → Bool
channel_enabled none category channel = default_enabled channel
channel_enabled (some prefs) category channel =
    enabled_by (find (λ p. (p.category == category) && same_channel p.channel channel) prefs)
      channel

abbrev pub delivery : PlanDeliveryInput → Bool → Text → Channel → NewNotificationInput
delivery i quiet user channel = record {
  user_id = user;
  category = i.category;
  channel = channel;
  title = i.title;
  body = i.body;
  event_data = i.event_data;
  status = some (if not (is_in_app channel) && quiet then queued else sent);
}

-- The loop over the channels of one recipient.
unfoldable pub plan_channels :
    PlanDeliveryInput → Bool → Text → List Channel → List NewNotificationInput
unfolding channel_enabled
plan_channels i quiet user [] = []
plan_channels i quiet user (c ∷ cs) =
    let rest = plan_channels i quiet user cs in
    if channel_enabled (lookup user i.prefs_by_user) i.category c
    then delivery i quiet user c ∷ rest
    else rest

-- The loop over the recipients.
unfoldable pub plan_recipients : PlanDeliveryInput → Bool → List Text → List NewNotificationInput
unfolding plan_channels
plan_recipients i quiet [] = []
plan_recipients i quiet (user ∷ users) =
    plan_channels i quiet user channels ++ plan_recipients i quiet users

-- planDeliveries
unfoldable pub plan_deliveries : PlanDeliveryInput → List NewNotificationInput
unfolding plan_recipients is_within_quiet_hours
plan_deliveries i = plan_recipients i (is_within_quiet_hours i.hour i.quiet_hours) i.recipient_ids
