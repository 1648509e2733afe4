-- ===== src/Rollup/Derived.antt =====
-- `emitHourBucket`, `emitDayBucket` and `emitDerived` of cmd/projector/rollup.go, over the replica and
-- the cursors of their passes.
use canebot_projector_repo.Base.{
  ℕ, ◌+◌, Bool, true, false, Option, none, some, List, [], ◌∷◌, ◌++◌, map, filter, length, ltb,
  ◌==◌, if◌then◌else◌,
}
use canebot_projector_repo.Rows.{OutStateDuration}
use canebot_projector_repo.Writer.Tables.{
  CipRun, Cycle, SpanRow, DwellRow, FaultRow, RollupRow, Replica,
}
use canebot_projector_repo.Writer.Rows.{date_utc}
use canebot_projector_repo.Writer.Marks.{guard, set_watermark}
use canebot_projector_repo.Writer.Keys.{insert_rollup}
use canebot_projector_repo.Writer.Flush.{has_cycle}
use canebot_projector_repo.Rollup.Occupancy.{state_occupancy}
use canebot_projector_repo.Rollup.Cycles.{aggregate_cycles}
use canebot_projector_repo.Rollup.CipRuns.{is_between, faults_within, emit_cip_runs}
use canebot_projector_repo.Rollup.Buckets.{hour_ms, day_ms, emit_hourly, emit_daily}
use canebot_projector_repo.Rollup.Groups.{blank_row, emit_fault_type_rollups, emit_step_rollups}

-- The spans that the occupancy is read from.
abbrev pub spans_of : Replica → List OutStateDuration
spans_of r = map (λ (s : SpanRow). s.span) r.state_durations

-- The machine row of an hour.
unfoldable pub hour_row : Replica → ℕ → ℕ → RollupRow
unfolding aggregate_cycles state_occupancy faults_within is_between date_utc
hour_row r bucket_start ts =
    let bucket_end = bucket_start + hour_ms in
    let agg = aggregate_cycles r.cycles bucket_start bucket_end in
    let occupancy = state_occupancy (spans_of r) bucket_start bucket_end in
    record (blank_row ts "hour" bucket_start "machine" none) {
      glasses = some agg.glasses;
      orders_started = some agg.started;
      orders_completed = some agg.completed;
      orders_faulted = some agg.faulted;
      fault_count = some (faults_within bucket_start bucket_end r.fault_events);
      cip_runs = some (
          length (
            filter (λ (c : CipRun). is_between bucket_start bucket_end c.started_at_ms)
              r.cip_runs));
      cycle_ms_sum = some agg.cycle_ms;
      cycle_count = some agg.cycle_count;
      run_ms = some occupancy.run_ms;
      error_ms = some occupancy.errored;
      maintenance_ms = some occupancy.maintenance;
      idle_ms = some occupancy.idle;
    }

unfoldable pub emit_hour_bucket : Replica → ℕ → Replica
unfolding hour_row guard set_watermark insert_rollup emit_fault_type_rollups emit_step_rollups
emit_hour_bucket r bucket_start =
    let bucket_end = bucket_start + hour_ms in
    let ts = guard r.marks "hourly_rollups" bucket_end in
    let machine = record r {
      rollups = insert_rollup r.rollups (hour_row r bucket_start ts);
      marks = set_watermark r.marks "hourly_rollups" ts;
    } in
    emit_step_rollups "hour" bucket_start bucket_end ts
      (emit_fault_type_rollups "hour" bucket_start bucket_end ts machine)

-- The machine row of a day. It has neither `orders_started` nor `cip_runs`, and counts faults by the
-- date that they carry.
unfoldable pub day_row : Replica → ℕ → ℕ → RollupRow
unfolding aggregate_cycles state_occupancy date_utc
day_row r day_start ts =
    let day_end = day_start + day_ms in
    let date = date_utc day_start in
    let agg = aggregate_cycles r.cycles day_start day_end in
    let occupancy = state_occupancy (spans_of r) day_start day_end in
    record (blank_row ts "day" day_start "machine" none) {
      glasses = some agg.glasses;
      orders_completed = some agg.completed;
      orders_faulted = some agg.faulted;
      fault_count = some (length (filter (λ (f : FaultRow). f.date_utc == date) r.fault_events));
      cycle_ms_sum = some agg.cycle_ms;
      cycle_count = some agg.cycle_count;
      run_ms = some occupancy.run_ms;
      error_ms = some occupancy.errored;
      maintenance_ms = some occupancy.maintenance;
      idle_ms = some occupancy.idle;
    }

unfoldable pub emit_day_bucket : Replica → ℕ → Replica
unfolding day_row guard set_watermark insert_rollup emit_fault_type_rollups emit_step_rollups
emit_day_bucket r day_start =
    let day_end = day_start + day_ms in
    let ts = guard r.marks "daily_rollups" day_end in
    let machine = record r { rollups = insert_rollup r.rollups (day_row r day_start ts) } in
    let out =
      emit_step_rollups "day" day_start day_end ts
        (emit_fault_type_rollups "day" day_start day_end ts machine) in
    record out { marks = set_watermark out.marks "daily_rollups" ts }

-- `MIN`, which passes over NULL.
unfoldable pub least : Option ℕ → Option ℕ → Option ℕ
least none b = b
least (some a) none = some a
least (some a) (some b) = some (if ltb b a then b else a)

unfoldable pub least_of {ℓ} : {A : Type ℓ} → (A → ℕ) → List A → Option ℕ
unfolding least
least_of f [] = none
least_of f (x ∷ xs) = least (some (f x)) (least_of f xs)

-- The query of `earliestBucket`.
unfoldable pub earliest : Replica → Option ℕ
unfolding least least_of
earliest r = least (least_of (λ (c : Cycle). c.started_at_ms) r.cycles) (
    least (least_of (λ (s : SpanRow). s.span.entered_at_ms) r.state_durations) (
      least (least_of (λ (f : FaultRow). f.fault.raised_at_ms) r.fault_events)
        (least_of (λ (d : DwellRow). d.dwell.started_at_ms) r.step_dwells)))

-- The cursors of the passes over the replica.
pub record RollupCursors : Type 0 where
  pub cip : ℕ
  pub hourly : ℕ
  pub daily : ℕ

-- Inserts the runs up to the first that the foreign key refuses, and says whether none was.
unfoldable pub insert_runs : Replica → List CipRun → Replica × Bool
unfolding has_cycle set_watermark
insert_runs r [] = (r, true)
insert_runs r (c ∷ cs) =
    let rest =
      insert_runs
        (record r {
          cip_runs = r.cip_runs ++ c ∷ [];
          marks = set_watermark r.marks "cip_runs" c.event_ts;
        })
        cs in
    if has_cycle r.cycles c.order_id then rest else (r, false)

unfoldable pub emit_hours : Replica → List ℕ → Replica
unfolding emit_hour_bucket
emit_hours r [] = r
emit_hours r (b ∷ bs) = emit_hours (emit_hour_bucket r b) bs

unfoldable pub emit_days : Replica → List ℕ → Replica
unfolding emit_day_bucket
emit_days r [] = r
emit_days r (d ∷ ds) = emit_days (emit_day_bucket r d) ds

-- `emitHourly` and `emitDaily`, behind the CIP runs.
unfoldable pub emit_rollups : ℕ → Replica → RollupCursors → Replica × RollupCursors
unfolding emit_hourly emit_daily emit_hours emit_days earliest
emit_rollups up_to r cursors =
    let (hours, hourly) = emit_hourly (earliest r) up_to cursors.hourly in
    let r' = emit_hours r hours in
    let (days, daily) = emit_daily (earliest r') up_to cursors.daily in
    (emit_days r' days, record cursors { hourly = hourly; daily = daily })

-- The replica, the cursors and whether the pass succeeded. A refused run ends it.
unfoldable pub emit_all_derived : ℕ → Replica → RollupCursors → Replica × RollupCursors × Bool
emit_all_derived up_to r cursors =
    let (runs, marks, high) = emit_cip_runs r cursors.cip up_to in
    let (r', ok) = insert_runs r runs in
    let (r'', cursors') = emit_rollups up_to r' (record cursors { cip = high }) in
    if up_to == 0
    then (r, cursors, true)
    else if ok
    then (r'', cursors', true)
    else (r', cursors, false)
