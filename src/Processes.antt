-- ===== src/Processes.antt =====
-- process_transitions.py and occupancy.py: the processes of a GPU, and the time for which they hold it.
pub mod Types
pub mod Transitions
pub mod Occupancy
pub mod Window
pub mod Merge
pub mod Tables
pub mod Stops
pub mod Inherit
pub mod Reconcile
mod Tests
