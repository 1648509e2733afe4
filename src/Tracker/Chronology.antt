-- ===== src/Tracker/Chronology.antt =====
-- The order in time of what the tracker emits, when its calls come in the order of their times.
pub mod Chains
pub mod Defs
pub mod Closing
pub mod Opening
pub mod Calls
pub mod StepRuns
pub mod Runs
