-- ===== src/Incidents/Policy.antt =====
-- `ThresholdIncidentPolicy` of incidents.py and incident_health.py: which conditions a sample shows,
-- which telemetry it carries, and the thresholds that hold for a host.
pub mod Config
pub mod Conditions
pub mod Host
pub mod Device
pub mod Observed
pub mod Overrides
pub mod Coherent
pub mod Blind
pub mod Sample
mod Tests
