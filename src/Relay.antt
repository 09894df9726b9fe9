-- ===== src/Relay.antt =====
-- services/relay/src and the transports of packages/events/src: the outbox is drained per tenant,
-- delivered at least once, and deduplicated by the consumer.
pub mod Store
pub mod Consumer
pub mod Pending
pub mod Drain
pub mod Inbox
mod Tests
