-- ===== src/Loop/Cycle.antt =====
-- loop/cycle.py: one trading cycle, phase by phase.
pub mod Marks
pub mod Close
pub mod Closed
pub mod Recover
pub mod Retried
pub mod Safety
pub mod Exits
pub mod Scan
pub mod Unrecorded
pub mod Fills
pub mod Entries
pub mod Recorded
pub mod Run
