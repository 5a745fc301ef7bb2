-- ===== src/Telemetry.antt =====
-- telemetry_points.py: the packed records of the histories, and the dictionaries that they are served
-- and stored as.
pub mod Json
pub mod Points
pub mod RoundTrip
mod Tests
