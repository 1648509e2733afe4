-- ===== src/Tracker/Invariant.antt =====
-- What holds of the tracker between two calls, and of every interval that it hands over.
pub mod Defs
pub mod Intervals
pub mod Closing
pub mod Frames
pub mod Ensuring
pub mod Tracking
pub mod Events
pub mod Faults
pub mod StepRuns
pub mod Runs
