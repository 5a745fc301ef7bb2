-- ===== src/Incidents/Tracker.antt =====
-- `IncidentTracker` of incidents.py: its state, its operations, the life of one condition as a
-- state machine, and the theorems that tie them.
pub mod State
pub mod Update
pub mod Phase
pub mod Observe
pub mod Recover
pub mod Refine
pub mod Runs
pub mod Log
pub mod Behaviour
pub mod Latency
pub mod Lifecycle
pub mod Removal
