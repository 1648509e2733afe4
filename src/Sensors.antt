-- ===== src/Sensors.antt =====
-- Snapshots of the controller's inputs: cmd/projector/sensors.go.
pub mod Tags
pub mod Numbers
pub mod Pairs
pub mod Sorted
pub mod Bits
pub mod Seen
