-- ===== src/Tracker.antt =====
-- The tracker of cmd/projector/tracker.go, which turns source rows into intervals of machine time.
pub mod State
pub mod Close
pub mod Ensure
pub mod Events
pub mod Faults
pub mod StepRuns
pub mod Doors
pub mod Inputs
pub mod Code
pub mod Scenarios
pub mod Invariant
pub mod Dominant
pub mod Handover
pub mod Ensured
pub mod Ledger
pub mod ConfigChange
pub mod Chronology
