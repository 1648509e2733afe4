-- ===== src/Pipeline.antt =====
-- cmd/projector/main.go: how a tick takes source rows through the tracker to the replica.
pub mod Intervals
pub mod Merge
pub mod Written
pub mod Cursors
pub mod Unread
pub mod Actuators
pub mod Drained
pub mod Config
pub mod Snapshot
pub mod Store
pub mod Reader
pub mod Collect
pub mod Tick
pub mod Sound
pub mod Ticks
pub mod Startup
pub mod Sessions
pub mod Away
pub mod Heartbeat
pub mod Stored
pub mod Once
pub mod Batches
pub mod Collected
pub mod Failing
