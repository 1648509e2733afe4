-- ===== src/Rollup.antt =====
-- cmd/projector/rollup.go: figures by the hour and by the day, over the rows that are written.
pub mod Occupancy
pub mod Buckets
pub mod Overlap
pub mod Period
pub mod Resume
pub mod Passes
pub mod Hours
pub mod Cycles
pub mod Counted
pub mod CipRuns
pub mod Grouping
pub mod Grouped
pub mod Groups
pub mod Totals
pub mod Partition
pub mod Derived
pub mod Upkeep
pub mod Machine
pub mod Cleans
pub mod CleansResume
pub mod Migration
pub mod Migrated
