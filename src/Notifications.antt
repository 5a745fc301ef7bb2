-- ===== src/Notifications.antt =====
-- notifications.py: the delivery of incident events to webhooks.
pub mod Worker
pub mod Delivery
pub mod Runs
pub mod Pairing
pub mod Bounds
pub mod Accounts
pub mod Attempts
pub mod Sink
pub mod Tests
