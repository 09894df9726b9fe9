-- ===== src/Notification/Quiet.antt =====
-- What a plan holds, row by row: services/notification/src/store.ts.
use lms_saas.Prelude.{
  ℕ, ◌+◌, ◌-◌, ◌%◌, ◌<◌, ◌≡◌, refl, sym, ap, ◌∙◌, ◌⊎◌, inl, inr, Bool-cases, Bool, true, false,
  Option, none, some, List, [], ◌∷◌, ◌++◌, map, Text, text_eq, lookup, All, All-append, filter,
  filter-append, arith, nat_eq_iff,
}
use mathlib.Core.List.{map-append}
use lms_saas.Notification.Plan.{
  Channel, in_app, email, sms, push, queued, sent, is_in_app, QuietHours, NewNotificationInput,
  is_within_quiet_hours, channels, channel_enabled, PlanDeliveryInput, delivery, plan_channels,
  plan_recipients, plan_deliveries,
}

-- Hours of a day.
abbrev pub AreHours : ℕ → Option QuietHours → Type 0
AreHours hour none = hour < 24
AreHours hour (some q) = (hour < 24) × (q.start_hour < 24) × (q.end_hour < 24)

-- Going round the clock from the start of the quiet hours, the hour comes before their end.
abbrev pub IsQuiet : ℕ → Option QuietHours → Type 0
IsQuiet hour none = ⊥
IsQuiet hour (some q) = (hour + 24 - q.start_hour) % 24 < (q.end_hour + 24 - q.start_hour) % 24

round :
    (from hour : ℕ)
    → hour < 24
    → from < 24
    → ((hour < from) × ((hour + 24 - from) % 24 ≡ hour + 24 - from))
      ⊎ ((from < hour + 1) × ((hour + 24 - from) % 24 ≡ hour - from))
round from hour h k = ground arith

IsQuiet-yes :
    (hour : ℕ) (q : Option QuietHours)
    → AreHours hour q
    → is_within_quiet_hours hour q ≡ true
    → IsQuiet hour q
unfolding is_within_quiet_hours
IsQuiet-yes hour none hours h = cc
IsQuiet-yes hour (some q) (h, s, e) held = ground (
  arith,
  round q.start_hour hour h s,
  round q.start_hour q.end_hour e s,
  nat_eq_iff q.start_hour q.end_hour,
)

IsQuiet-no :
    (hour : ℕ) (q : Option QuietHours)
    → AreHours hour q
    → is_within_quiet_hours hour q ≡ false
    → ¬ IsQuiet hour q
unfolding is_within_quiet_hours
IsQuiet-no hour none hours h = λ x. x
IsQuiet-no hour (some q) (h, s, e) free = λ x. ground (
  arith,
  x,
  round q.start_hour hour h s,
  round q.start_hour q.end_hour e s,
  nat_eq_iff q.start_hour q.end_hour,
)

-- Whom a row is for, and on which channel.
abbrev pub address : NewNotificationInput → Text × Channel
address row = (row.user_id, row.channel)

abbrev pub addresses : List Text → List (Text × Channel)
addresses [] = []
addresses (user ∷ users) =
    (user, in_app) ∷ (user, email) ∷ (user, sms) ∷ (user, push) ∷ addresses users

-- `channelEnabled` with the recipient's preferences.
abbrev pub is_wanted : PlanDeliveryInput → Text × Channel → Bool
is_wanted i a = channel_enabled (lookup a.0 i.prefs_by_user) i.category a.1

-- Sent, if it is in-app or the hour is not quiet; otherwise held.
abbrev pub IsTimely : PlanDeliveryInput → NewNotificationInput → Type 0
IsTimely i row =
    ((row.status ≡ some sent) × ((is_in_app row.channel ≡ true) ⊎ ¬ IsQuiet i.hour i.quiet_hours))
    ⊎ ((row.status ≡ some queued) × (is_in_app row.channel ≡ false) × IsQuiet i.hour i.quiet_hours)

abbrev pub IsPlanned :
    PlanDeliveryInput → List (Text × Channel) → List NewNotificationInput → Type 0
IsPlanned i asked rows = (map address rows ≡ filter (is_wanted i) asked) × All (IsTimely i) rows

module _ (i : PlanDeliveryInput) (hours : AreHours i.hour i.quiet_hours) where
  abbrev quiet : Bool
  quiet = is_within_quiet_hours i.hour i.quiet_hours

  delivery-IsTimely : (user : Text) (c : Channel) → IsTimely i (delivery i quiet user c)
  delivery-IsTimely user c = elim (Bool-cases (is_in_app c)) [
    | inl at_once ↦ inl (ground (arith, at_once), inl at_once)
    | inr later ↦ elim (Bool-cases quiet) [
      | inl held ↦
          inr (ground (arith, later, held), later, IsQuiet-yes i.hour i.quiet_hours hours held)
      | inr free ↦
          inl (ground (arith, later, free), inr (IsQuiet-no i.hour i.quiet_hours hours free))
    ]
  ]

  abbrev pairs : Text → List Channel → List (Text × Channel)
  pairs user [] = []
  pairs user (c ∷ cs) = (user, c) ∷ pairs user cs

  plan_channels-IsPlanned :
      (user : Text) (cs : List Channel)
      → IsPlanned i (pairs user cs) (plan_channels i quiet user cs)
  unfolding plan_channels
  plan_channels-IsPlanned user [] = (refl, tt)
  plan_channels-IsPlanned user (c ∷ cs) =
      let (names, timely) = plan_channels-IsPlanned user cs in
      elim (Bool-cases (channel_enabled (lookup user i.prefs_by_user) i.category c)) [
        | inl on ↦ rw on (ap (◌∷◌ (user, c)) names, (delivery-IsTimely user c, timely))
        | inr off ↦ rw off (names, timely)
      ]

  plan_recipients-IsPlanned :
      (users : List Text) → IsPlanned i (addresses users) (plan_recipients i quiet users)
  unfolding plan_recipients
  plan_recipients-IsPlanned [] = (refl, tt)
  plan_recipients-IsPlanned (user ∷ users) =
      let (names, timely) = plan_channels-IsPlanned user channels in
      let (later_names, later) = plan_recipients-IsPlanned users in
      (
        map-append address (plan_channels i quiet user channels) (plan_recipients i quiet users)
            ∙ ap (λ xs. map address (plan_channels i quiet user channels) ++ xs) later_names
            ∙ ap (λ xs. xs ++ filter (is_wanted i) (addresses users)) names
            ∙ sym (filter-append (is_wanted i) (pairs user channels) (addresses users)),
        All-append (IsTimely i) (plan_channels i quiet user channels)
            (plan_recipients i quiet users) timely later,
      )

-- A plan leaves nobody out and respects quiet hours: for hours of a day, it has exactly one row for
-- each recipient and each of the four channels that `channelEnabled` lets through, in that order; a row is sent if it is in-app or if the hour is not quiet, and held otherwise, where an hour
-- is quiet if, going round the clock from the start of the quiet hours, it comes before their end.
pub plan_deliveries-IsTimely :
    (i : PlanDeliveryInput)
    → AreHours i.hour i.quiet_hours
    → IsPlanned i (addresses i.recipient_ids) (plan_deliveries i)
unfolding plan_deliveries
plan_deliveries-IsTimely i hours = plan_recipients-IsPlanned i hours i.recipient_ids
