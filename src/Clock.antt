-- ===== src/Clock.antt =====
-- The texts of times and dates: `eventTS` and `dateUTC` of cmd/projector/writer.go.
pub mod Calendar
pub mod Text
pub mod Fields
pub mod Times
pub mod Dates
pub mod Order
pub mod Marks
pub mod Refined
