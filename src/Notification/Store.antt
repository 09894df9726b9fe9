-- ===== src/Notification/Store.antt =====
-- services/notification/src/store.memory.ts. `ids` and `clock` are what `generateId` and `now`
-- return, call by call; `precedes` is whether `a.localeCompare(b) <= 0`.
use lms_saas.Prelude.{
  ℕ, suc, ◌+◌, Bool, true, false, not, ◌&&◌, Option, none, some, List, [], ◌∷◌, ◌++◌, Text, text,
  text_eq, option_eq, ◌==◌, find, filter, any, update_first, length, if◌then◌else◌, Map, lookup,
  insert,
}
use lms_saas.Audit.Json.{Members, no_members}
use lms_saas.Notification.Plan.{
  Channel, in_app, email, sms, push, NotificationStatus, queued, sent, read, same_channel,
  is_in_app, PreferenceRecord, NewNotificationInput,
}

pub record NotificationRecord : Type 0 where
  pub id : Text
  pub tenant_id : Text
  pub user_id : Text
  pub category : Text
  pub channel : Channel
  pub title : Text
  pub body : Option Text
  pub event_data : Members
  pub status : NotificationStatus
  pub created_at : Text
  pub read_at : Option Text

pub record PreferenceInput : Type 0 where
  pub channel : Channel
  pub category : Text
  pub is_enabled : Bool

pub record Inbox : Type 0 where
  pub notifications : List NotificationRecord
  pub unread_count : ℕ

-- MemoryNotificationStore, and how often the id source and the clock were read.
pub record NotificationStore : Type 0 where
  pub notifications : List NotificationRecord
  pub preferences : List PreferenceRecord
  pub inbox_claims : List Text
  pub pref_tenant : Map Text Text
  pub minted : ℕ
  pub times : ℕ

abbrev or_queued : Option NotificationStatus → NotificationStatus
or_queued none = queued
or_queued (some s) = s

abbrev or_no_members : Option Members → Members
or_no_members none = no_members
or_no_members (some m) = m

abbrev pub is_unread : NotificationRecord → Bool
is_unread n = n.read_at == none

-- The in-app rows of a user.
abbrev pub is_mine : Text → Text → NotificationRecord → Bool
is_mine tenant user n = (n.tenant_id == tenant) && (n.user_id == user) && is_in_app n.channel

abbrev pub with_id : Text → Text → Text → NotificationRecord → Bool
with_id tenant user id n = (n.id == id) && (n.tenant_id == tenant) && (n.user_id == user)

abbrev channel_name : Channel → Text
channel_name in_app = text "in_app"
channel_name email = text "email"
channel_name sms = text "sms"
channel_name push = text "push"

-- prefKey
abbrev pref_key : Text → Channel → Text → Text
pref_key user channel category =
    user ++ (text "::" ++ (channel_name channel ++ (text "::" ++ category)))

-- The key of a claim.
unfoldable pub claim_key : Text → Text → Text
claim_key tenant message_id = tenant ++ (text "::notification::" ++ message_id)

abbrev pub claimed : NotificationStore → Text → Bool
claimed s key = any (λ k. k == key) s.inbox_claims

module _ (ids clock : ℕ → Text) where
  abbrev pub new_notification : NotificationStore → Text → NewNotificationInput → NotificationRecord
  new_notification s tenant row = record {
    id = ids s.minted;
    tenant_id = tenant;
    user_id = row.user_id;
    category = row.category;
    channel = row.channel;
    title = row.title;
    body = row.body;
    event_data = or_no_members row.event_data;
    status = or_queued row.status;
    created_at = clock s.times;
    read_at = none;
  }

  -- createNotifications
  unfoldable pub create_notifications :
      NotificationStore
      → Text
      → List NewNotificationInput
      → List NotificationRecord × NotificationStore
  create_notifications s tenant [] = ([], s)
  create_notifications s tenant (row ∷ rows) =
      let n = new_notification s tenant row in
      let rest =
        create_notifications
          (record s {
            notifications = s.notifications ++ (n ∷ []);
            minted = suc s.minted;
            times = suc s.times;
          })
          tenant rows in
      (n ∷ rest.0, rest.1)

  -- ingestEvent
  unfoldable pub ingest_event :
      NotificationStore
      → Text
      → Text
      → List NewNotificationInput
      → (Bool × List NotificationRecord) × NotificationStore
  unfolding claim_key create_notifications
  ingest_event s tenant message_id rows =
      let made = create_notifications s tenant rows in
      if claimed s (claim_key tenant message_id) then ((false, []), s) else (
        (true, made.0),
        record made.1 { inbox_claims = made.1.inbox_claims ++ (claim_key tenant message_id ∷ []) },
      )

  -- A history of deliveries, each with its tenant, message and rows.
  unfoldable pub ingest_all :
      NotificationStore → List (Text × Text × List NewNotificationInput) → NotificationStore
  unfolding ingest_event
  ingest_all s [] = s
  ingest_all s ((tenant, message_id, rows) ∷ later) =
      ingest_all (ingest_event s tenant message_id rows).1 later

  abbrev pub as_read : Text → NotificationRecord → NotificationRecord
  as_read now n = if is_unread n then record n { read_at = some now; status = read } else n

  read_found :
      Option NotificationRecord
      → NotificationStore
      → Text
      → Text
      → Text
      → Option NotificationRecord × NotificationStore
  read_found none s tenant user id = (none, s)
  read_found (some n) s tenant user id = (
    some (as_read (clock s.times) n),
    record s {
      notifications =
          update_first (with_id tenant user id) (as_read (clock s.times)) s.notifications;
      times = if is_unread n then suc s.times else s.times;
    },
  )

  -- markRead
  unfoldable pub mark_read :
      NotificationStore → Text → Text → Text → Option NotificationRecord × NotificationStore
  unfolding read_found
  mark_read s tenant user id =
      read_found (find (with_id tenant user id) s.notifications) s tenant user id

  -- The loop of `markAllRead`: how many it marks, and the rows.
  unfoldable pub read_rows : Text → Text → ℕ → List NotificationRecord → ℕ × List NotificationRecord
  read_rows tenant user times [] = (0, [])
  read_rows tenant user times (n ∷ ns) =
      let unread = is_mine tenant user n && is_unread n in
      let rest = read_rows tenant user (if unread then suc times else times) ns in
      if unread
      then (suc rest.0, record n { read_at = some (clock times); status = read } ∷ rest.1)
      else (rest.0, n ∷ rest.1)

  -- markAllRead
  unfoldable pub mark_all_read : NotificationStore → Text → Text → ℕ × NotificationStore
  unfolding read_rows
  mark_all_read s tenant user =
      let r = read_rows tenant user s.times s.notifications in
      (r.0, record s { notifications = r.1; times = s.times + r.0 })

-- `unreadCount` of listInbox
unfoldable pub unread_count : List NotificationRecord → Text → Text → ℕ
unread_count ns tenant user = length (filter is_unread (filter (is_mine tenant user) ns))

module _ (precedes : Text → Text → Bool) where
  -- The comparison is of the second row with the first: newest first.
  abbrev place : NotificationRecord → List NotificationRecord → List NotificationRecord
  place n [] = n ∷ []
  place n (m ∷ rest) = if precedes m.created_at n.created_at then n ∷ m ∷ rest else m ∷ place n rest

  abbrev newest_first : List NotificationRecord → List NotificationRecord
  newest_first [] = []
  newest_first (n ∷ rest) = place n (newest_first rest)

  -- listInbox
  unfoldable pub list_inbox : NotificationStore → Text → Text → Bool → Inbox
  unfolding unread_count
  list_inbox s tenant user unread_only =
      let mine = filter (is_mine tenant user) s.notifications in
      record {
        notifications = newest_first (if unread_only then filter is_unread mine else mine);
        unread_count = unread_count s.notifications tenant user;
      }

abbrev pub owned_by : NotificationStore → Text → PreferenceRecord → Bool
owned_by s tenant p = lookup (pref_key p.user_id p.channel p.category) s.pref_tenant == some tenant

-- getPreferences
unfoldable pub get_preferences : NotificationStore → Text → Text → List PreferenceRecord
get_preferences s tenant user =
    filter (λ p. (p.user_id == user) && owned_by s tenant p) s.preferences

abbrev is_preference : NotificationStore → Text → Text → PreferenceInput → PreferenceRecord → Bool
is_preference s tenant user i p =
    (p.user_id == user)
    && same_channel p.channel i.channel
    && (p.category == i.category)
    && owned_by s tenant p

abbrev new_preference : Text → PreferenceInput → PreferenceRecord
new_preference user i = record {
  user_id = user;
  channel = i.channel;
  category = i.category;
  is_enabled = i.is_enabled;
}

-- The body of the loop of `setPreferences`.
unfoldable pub set_preference :
    NotificationStore → Text → Text → PreferenceInput → NotificationStore
set_preference s tenant user i =
    if any (is_preference s tenant user i) s.preferences
    then record s {
      preferences =
          update_first (is_preference s tenant user i) (λ p. record p { is_enabled = i.is_enabled })
            s.preferences;
    }
    else record s {
      preferences = s.preferences ++ (new_preference user i ∷ []);
      pref_tenant = insert (pref_key user i.channel i.category) tenant s.pref_tenant;
    }

-- setPreferences, whose answer is `get_preferences` of the store it leaves.
unfoldable pub set_preferences :
    NotificationStore → Text → Text → List PreferenceInput → NotificationStore
unfolding set_preference
set_preferences s tenant user [] = s
set_preferences s tenant user (i ∷ later) =
    set_preferences (set_preference s tenant user i) tenant user later

abbrev is_queued : NotificationStatus → Bool
is_queued queued = true
is_queued _ = false

abbrev is_held : Text → Text → NotificationRecord → Bool
is_held tenant user n =
    (n.tenant_id == tenant)
    && (n.user_id == user)
    && not (is_in_app n.channel)
    && is_queued n.status

-- flushDigest
unfoldable pub flush_digest :
    List NotificationRecord → Text → Text → List NotificationRecord × List NotificationRecord
flush_digest [] tenant user = ([], [])
flush_digest (n ∷ ns) tenant user =
    let rest = flush_digest ns tenant user in
    let now_sent = record n { status = sent } in
    if is_held tenant user n then (now_sent ∷ rest.0, now_sent ∷ rest.1) else (rest.0, n ∷ rest.1)
