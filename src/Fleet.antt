-- ===== src/Fleet.antt =====
-- The server's components without a state of their own: SSH failures, maintenance windows, capacity
-- matching and correlation.
pub mod Ssh
pub mod Maintenance
pub mod Capacity
pub mod Ranking
pub mod Correlation
pub mod Densest
pub mod Table
pub mod Loss
pub mod Composite
mod Tests
mod Reports
