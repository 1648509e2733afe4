-- ===== src/Writer.antt =====
-- cmd/projector/writer.go and the watermarks of cmd/projector/state.go: the replica's tables.
pub mod Tables
pub mod Marks
pub mod Rows
pub mod Flush
pub mod Pulses
pub mod Pruning
pub mod Gaps
pub mod Watermarks
pub mod Inserting
pub mod Keys
pub mod Consistency
pub mod References
pub mod Upkeep
pub mod Attribution
