-- ===== src/Scheduler.antt =====
-- service_scheduler.py: the requests for a probe and the schedule of the hosts that fail.
pub mod Control
pub mod Backoff
pub mod Cooldown
pub mod Rebase
pub mod Instant
pub mod Settled
pub mod Batches
pub mod Counted
mod Tests
