-- ===== src/Relay/Inbox.antt =====
-- MemoryConsumerInbox of services/relay/src/store.memory.ts.
use lms_saas.Prelude.{
  ◌≡◌, refl, Bool, true, false, List, [], ◌∷◌, ◌++◌, Text, text, text_eq, ◌==◌, eq_refl, any,
  any-append, if◌then◌else◌, arith,
}

-- key
unfoldable pub inbox_key : Text → Text → Text
inbox_key consumer message_id = consumer ++ (text "::" ++ message_id)

abbrev pub seen : List Text → Text → Bool
seen keys key = any (λ k. k == key) keys

-- markProcessed; the tenant is not part of the key.
unfoldable pub mark_processed : List Text → Text → Text → Text → Bool × List Text
unfolding inbox_key
mark_processed keys consumer message_id tenant =
    let key = inbox_key consumer message_id in
    if seen keys key then (false, keys) else (true, keys ++ (key ∷ []))

-- A history of claims.
unfoldable pub claim_all : List Text → List (Text × Text × Text) → List Text
unfolding mark_processed
claim_all keys [] = keys
claim_all keys ((consumer, message_id, tenant) ∷ later) =
    claim_all (mark_processed keys consumer message_id tenant).1 later

seen-mark :
    (keys : List Text) (key consumer message_id tenant : Text)
    → seen keys key ≡ true
    → seen (mark_processed keys consumer message_id tenant).1 key ≡ true
unfolding mark_processed
seen-mark keys key consumer message_id tenant h =
    ground (arith, any-append (λ k. k == key) keys (inbox_key consumer message_id ∷ []))

seen-claims :
    (keys : List Text) (key : Text) (history : List (Text × Text × Text))
    → seen keys key ≡ true
    → seen (claim_all keys history) key ≡ true
unfolding claim_all
seen-claims keys key [] h = h
seen-claims keys key ((consumer, message_id, tenant) ∷ later) h =
    seen-claims (mark_processed keys consumer message_id tenant).1 key later
      (seen-mark keys key consumer message_id tenant h)

mark-seen :
    (keys : List Text) (consumer message_id tenant : Text)
    → seen (mark_processed keys consumer message_id tenant).1 (inbox_key consumer message_id) ≡ true
unfolding mark_processed
mark-seen keys consumer message_id tenant = ground (
  arith,
  any-append (λ k. k == inbox_key consumer message_id) keys (inbox_key consumer message_id ∷ []),
  eq_refl (inbox_key consumer message_id),
)

-- A message is claimed once: after any claim of a message by a consumer, and whatever is claimed
-- since then, a redelivery of it to that consumer is told to skip it and changes nothing.
pub mark_processed-once :
    (keys : List Text) (consumer message_id tenant tenant' : Text)
    (history : List (Text × Text × Text))
    → let after = claim_all (mark_processed keys consumer message_id tenant).1 history in
      mark_processed after consumer message_id tenant' ≡ (false, after)
unfolding mark_processed
mark_processed-once keys consumer message_id tenant tenant' history =
    rw
      (seen-claims (mark_processed keys consumer message_id tenant).1
        (inbox_key consumer message_id) history (mark-seen keys consumer message_id tenant))
      refl
