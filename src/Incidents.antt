-- ===== src/Incidents.antt =====
-- The incident vocabulary, the telemetry domains, and the tracker that turns conditions into events.
pub mod Types
pub mod Domains
pub mod Policy
pub mod Tracker
pub mod Tests
