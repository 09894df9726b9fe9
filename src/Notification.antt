-- ===== src/Notification.antt =====
-- services/notification/src: the inbox of each user and the fan-out of events into it.
pub mod Plan
pub mod Store
pub mod Laws
pub mod Quiet
mod Tests
