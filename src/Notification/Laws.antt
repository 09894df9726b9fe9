-- ===== src/Notification/Laws.antt =====
-- An event takes effect once, and the unread counter: services/notification/src/store.memory.ts.
use lms_saas.Prelude.{
  ℕ, suc, ◌≡◌, refl, true, false, List, [], ◌∷◌, ◌++◌, Text, text_eq, ◌==◌, eq_refl, any-append,
  arith,
}
use lms_saas.Notification.Plan.{NewNotificationInput}
use lms_saas.Notification.Store.{
  NotificationRecord, NotificationStore, new_notification, claim_key, claimed, create_notifications,
  ingest_event, ingest_all, read_rows, mark_all_read, unread_count,
}

module _ (ids clock : ℕ → Text) where
  create-claims :
      (s : NotificationStore) (tenant : Text) (rows : List NewNotificationInput)
      → (create_notifications ids clock s tenant rows).1.inbox_claims ≡ s.inbox_claims
  unfolding create_notifications
  create-claims s tenant [] = refl
  create-claims s tenant (row ∷ rows) =
      create-claims
        (record s {
          notifications = s.notifications ++ (new_notification ids clock s tenant row ∷ []);
          minted = suc s.minted;
          times = suc s.times;
        })
        tenant rows

  claimed-ingest :
      (s : NotificationStore) (key tenant message_id : Text) (rows : List NewNotificationInput)
      → claimed s key ≡ true
      → claimed (ingest_event ids clock s tenant message_id rows).1 key ≡ true
  unfolding ingest_event
  claimed-ingest s key tenant message_id rows h = ground (
    arith,
    create-claims s tenant rows,
    any-append (λ k. k == key) s.inbox_claims (claim_key tenant message_id ∷ []),
  )

  ingest-claimed :
      (s : NotificationStore) (tenant message_id : Text) (rows : List NewNotificationInput)
      → claimed (ingest_event ids clock s tenant message_id rows).1 (claim_key tenant message_id)
        ≡ true
  unfolding ingest_event
  ingest-claimed s tenant message_id rows = ground (
    arith,
    create-claims s tenant rows,
    any-append (λ k. k == claim_key tenant message_id) s.inbox_claims
        (claim_key tenant message_id ∷ []),
    eq_refl (claim_key tenant message_id),
  )

  claimed-history :
      (s : NotificationStore) (key : Text)
      (history : List (Text × Text × List NewNotificationInput))
      → claimed s key ≡ true
      → claimed (ingest_all ids clock s history) key ≡ true
  unfolding ingest_all
  claimed-history s key [] h = h
  claimed-history s key ((tenant, message_id, rows) ∷ later) h =
      claimed-history (ingest_event ids clock s tenant message_id rows).1 key later
        (claimed-ingest s key tenant message_id rows h)

  -- An event takes effect once: once a message was ingested for a tenant, and whatever was ingested
  -- since, a redelivery of it, with any rows, creates no notification and changes nothing.
  pub ingest_event-once :
      (s : NotificationStore) (tenant message_id : Text) (rows rows' : List NewNotificationInput)
      (history : List (Text × Text × List NewNotificationInput))
      → let after =
          ingest_all ids clock (ingest_event ids clock s tenant message_id rows).1 history in
        ingest_event ids clock after tenant message_id rows' ≡ ((false, []), after)
  unfolding ingest_event
  ingest_event-once s tenant message_id rows rows' history =
      rw
        (claimed-history (ingest_event ids clock s tenant message_id rows).1
          (claim_key tenant message_id) history (ingest-claimed s tenant message_id rows))
        refl

  read_rows-unread :
      (tenant user : Text) (times : ℕ) (ns : List NotificationRecord)
      → ((read_rows ids clock tenant user times ns).0 ≡ unread_count ns tenant user)
        × (unread_count (read_rows ids clock tenant user times ns).1 tenant user ≡ 0)
  unfolding read_rows unread_count
  read_rows-unread tenant user times [] = (refl, refl)
  read_rows-unread tenant user times (n ∷ ns) =
      ground
        (arith, read_rows-unread tenant user times ns, read_rows-unread tenant user (suc times) ns)

  -- Marking all read clears the badge: it answers the unread count that the inbox showed, and the
  -- inbox shows zero afterwards.
  pub mark_all_read-unread :
      (s : NotificationStore) (tenant user : Text)
      → ((mark_all_read ids clock s tenant user).0 ≡ unread_count s.notifications tenant user)
        × (unread_count (mark_all_read ids clock s tenant user).1.notifications tenant user ≡ 0)
  unfolding mark_all_read
  mark_all_read-unread s tenant user = read_rows-unread tenant user s.times s.notifications
