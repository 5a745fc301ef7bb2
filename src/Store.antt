-- ===== src/Store.antt =====
-- `StateStore` of service.py: what it keeps of hosts, GPUs and their processes.
pub mod Slot
pub mod Replay
pub mod InStep
pub mod Tables
pub mod Observe
pub mod Close
pub mod Hosts
pub mod Incarnations
pub mod Removal
pub mod HostTests
pub mod Tests
