-- ===== src/Examples.antt =====
-- Tests of the code of cmd/projector, and the theorems at concrete inputs.
mod Replicas
mod OfTracker
mod OfWriter
mod OfRollup
mod OfPipeline
mod OfTicks
mod OfTables
mod OfClock
mod OfSensors
mod OfMigration
