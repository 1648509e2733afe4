-- ===== src/Lib.antt =====
-- The CaneBot projector (cmd/projector): it reads the rows that a juice machine's controller records,
-- rebuilds from them what the machine did, and writes finished rows to a replica, which an agent sends
-- on. This library models the projector's core and proves it correct.
--
-- Parts, and the files that model them:
-- - Rows, Labels: the row types of cmd/projector/reader.go and writer.go, and the words that rows are
--   labelled by (laneForState, resultForState, severityFor, outcomeFor and the like).
-- - Tracker: the state machine of cmd/projector/tracker.go. Tracker/State has its state, Close what
--   ends spans, dwells and intervals (closeInterval and below), Ensure ensureInterval, and Events,
--   Faults, StepRuns, Doors and Inputs the calls: ApplyFSMEvent, ApplyFault, ApplyStepRun,
--   ApplySensorToggle, ApplyOrder, ApplyConfigChange, FlushOpen, PendingIntervals. `apply` dispatches
--   over source rows as `tick` of cmd/projector/main.go does, and `run` applies many. A pointer to the
--   open interval is a field that each step writes back.
--   Proofs: Invariant (what always holds), Chronology (the order of time), Ensured, Handover, Dominant,
--   Ledger, ConfigChange.
-- - Writer: FlushInterval of cmd/projector/writer.go on the replica's tables, as lists of rows, with
--   the foreign key, the unique keys and the watermarks of state.go. A refused row is `none`: the
--   transaction is rolled back. Pulses has the actuator pulses, Pruning Prune, Gaps RecordGap and Keys
--   the unique key of the rollups. Proofs: Watermarks, Inserting, Consistency, References, Upkeep,
--   Attribution.
-- - Rollup: cmd/projector/rollup.go. Occupancy has stateOccupancy and overlapMS, Buckets the loops of
--   emitHourly and emitDaily with their cursors, Cycles aggregateCycles, CipRuns emitCIPRuns, Grouping
--   and Groups emitFaultTypeRollups and emitStepRollups, Derived emitHourBucket, emitDayBucket and
--   emitDerived, Migration migrateRollups of writer.go. Proofs: Overlap, Period, Hours, Resume, Passes,
--   Counted, Cleans, CleansResume, Grouped, Totals, Machine, Upkeep, Migrated,
--   Partition.
-- - Pipeline: main.go. Intervals has flushIntervals; Actuators drainActuators, with the reader of closed
--   pulses; Config drainConfig; Merge the sort, the safe window and the cursors; Store the tables of
--   state.go; Reader the batched reads of reader.go; Collect collect; Tick tick and finalFlush over the
--   tracker, the replica and the store; Startup what `run` begins with; Sessions any sequence of ticks,
--   pruning, final passes and restarts. Proofs: Written, Drained, Snapshot, Cursors, Unread, Sound,
--   Ticks, Heartbeat, Away, Stored, Once, Batches, Collected, Failing.
-- - Clock: eventTS and dateUTC of writer.go as bytes (Text, with Calendar), and the watermarks and the
--   guard by texts (Marks). Proofs: Fields, Times, Dates, Order, Refined.
-- - Sensors: cmd/projector/sensors.go. Tags has parseInputTag and buildSensorBitOrder, Bits
--   encodeSensorBits, sensorValue, doorClosed and cipBypass, whose columns Writer/Rows fills. Proofs:
--   Numbers, Pairs, Sorted, Seen.
-- - Examples: tests, and the theorems at concrete inputs. Base: what the others share.
--
-- A tick reads batches and merges them; the merge says which source rows the tracker is given, and in
-- which order. The tracker hands its closed intervals to the writer, whose rows the rollups read.
--
-- Numbers: a time.Time is its nanoseconds since 1970, and milliseconds are natural numbers; int64
-- does not wrap before the year 292 million, so no bound is written. Ids, steps and quantities are
-- not negative; the run time of an output keeps its sign, and so does a door's time to its first
-- reset. An `event_ts` is the number of milliseconds that its text shows, and a date the number of
-- its day; Clock relates both to the texts that the program stores and compares. The bucket loop runs
-- on fuel `up_to + 1`; a width is positive, so each round comes nearer to `up_to`, and the theorem on
-- due buckets shows that the fuel is enough. The calendar runs on fuel for 8030 years of 365 days and
-- 14 months of 28, which is enough until the end of the year 9999; behind it the text of a year has
-- more than four digits, and the order of texts is not the order of times.
--
-- Parameters: the firmware's inputs, its names of two of them (IoPins) and its step descriptions; the
-- classifier of faults, which the tracker takes as a function; what encoding/json reads from a
-- snapshot and from a step run's actuators. The source is an argument of each tick: its tables in the
-- order of ids, where a read that fails is `none`, and so is a row whose timestamp cannot be parsed.
--
-- Not modelled: SQL text, DDL and ALTER TABLE migrations, SQLite's errors on writing, flags and signals.
mod Base
pub mod Rows
pub mod Labels
pub mod Clock
pub mod Sensors
pub mod Tracker
pub mod Writer
pub mod Rollup
pub mod Pipeline
mod Examples
