-- ===== src/Examples/OfRollup.antt =====
-- The theorems on cmd/projector/rollup.go, for an hour and two spans.
use canebot_projector_repo.Base.{
  ℕ, ◌-◌, ◌≤◌, ◌<◌, ◌≡◌, refl, subst, String, true, false, Option, none, some, List, [], ◌∷◌, ◌++◌,
  arith,
}
use canebot_projector_repo.Rows.{OutStateDuration}
use canebot_projector_repo.Labels.{severity_for}
use canebot_projector_repo.Tracker.State.{new_interval, new_tracker}
use canebot_projector_repo.Tracker.Inputs.{run}
use canebot_projector_repo.Tracker.Scenarios.{pins}
use canebot_projector_repo.Tracker.Chronology.Defs.{all_spans}
use canebot_projector_repo.Rollup.Occupancy.{
  overlap_ms, add_occupancy, is_within, occupy, occupy_all, state_occupancy,
}
use canebot_projector_repo.Rollup.Overlap.{plus, state_occupancy_split}
use canebot_projector_repo.Rollup.Period.{total, IsGapless, state_occupancy-total, run-occupancy}
use canebot_projector_repo.Rollup.Buckets.{
  first_bucket, emit_from, emit_buckets, emit_derived, emit_hourly, emit_daily,
}
use canebot_projector_repo.Rollup.Passes.{emit_passes-resume}
use canebot_projector_repo.Rollup.Hours.{sum_buckets, sum_buckets-period}
use canebot_projector_repo.Writer.Tables.{Cycle}
use canebot_projector_repo.Writer.Rows.{cycle_row}
use canebot_projector_repo.Rollup.Cycles.{
  is_aggregated, glasses_of, is_faulted, add_cycle, aggregate_cycles,
}
use canebot_projector_repo.Rollup.Counted.{plus_cycles, aggregate_cycles_split}
use canebot_projector_repo.Writer.Tables.{CipRun, SpanRow, Replica, empty_replica}
use canebot_projector_repo.Writer.Rows.{span_row}
use canebot_projector_repo.Base.{Bool, map, sort}
use canebot_projector_repo.Rollup.CipRuns.{
  is_new_clean, exits_before, dwell_completes, cycle_completes, cip_run, new_cleans, emit_runs,
  emit_cip_runs,
}
use canebot_projector_repo.Rollup.CleansResume.{emit_cip_runs-resume}
use canebot_projector_repo.Rollup.Resume.{IsDue, IsLater, emit_derived-IsDue, emit_derived-resume}
use canebot_projector_repo.Examples.OfTracker.{a_drink_by_runs, a_drink_by_runs-InOrder}

abbrev a_span : String → ℕ → ℕ → OutStateDuration
a_span state entered exited = record {
  entered_at_ms = entered;
  exited_at_ms = exited;
  duration_ms = exited - entered;
  order_key = "IDLE-1";
  state = state;
  entry_reason = "";
  exit_reason = "";
}

abbrev some_spans : List OutStateDuration
some_spans = a_span "HomeIdle" 3000000 4000000 ∷ a_span "AutoCycle" 4000000 8000000 ∷ []

occupancy_test :
    state_occupancy some_spans 3600000 7200000
    ≡ record { run_ms = 3200000; errored = 0; maintenance = 0; idle = 400000 }
unfolding overlap_ms add_occupancy is_within occupy occupy_all state_occupancy
occupancy_test = refl

buckets_test : emit_derived 10 (some 10) 35 0 ≡ (10 ∷ 20 ∷ [], 20)
unfolding first_bucket emit_from emit_buckets emit_derived
buckets_test = refl

state_occupancy_split_example :
    plus (state_occupancy some_spans 3600000 7200000) (state_occupancy some_spans 7200000 10800000)
    ≡ state_occupancy some_spans 3600000 10800000
state_occupancy_split_example =
    state_occupancy_split some_spans 3600000 7200000 10800000 (omega arith) (omega arith)

some_spans-IsGapless : IsGapless 3000000 some_spans 8000000
some_spans-IsGapless = (refl, omega arith, (refl, omega arith, refl))

state_occupancy-total_example :
    total (state_occupancy some_spans 3600000 7200000) ≡ 7200000 - 3600000
state_occupancy-total_example =
    state_occupancy-total 3000000 some_spans 8000000 3600000 7200000 some_spans-IsGapless
      (omega arith) (omega arith) (omega arith)

run-occupancy_example :
    total (
      state_occupancy
        (all_spans (run pins (new_tracker severity_for true true) a_drink_by_runs))
        1000
        5000)
    ≤ 5000 - 1000
run-occupancy_example =
    run-occupancy pins severity_for true true a_drink_by_runs 1000 5000 a_drink_by_runs-InOrder

first_hour : first_bucket 3600000 0 (some 3600000) ≡ some 3600000
unfolding first_bucket
first_hour = refl

emit_derived-IsDue_example :
    IsDue 3600000 11000000 3600000 (emit_derived 3600000 (some 3600000) 11000000 0).0
emit_derived-IsDue_example =
    emit_derived-IsDue 3600000 (some 3600000) 11000000 0 3600000 (omega arith) first_hour

is_later : IsLater (some 3600000)
is_later ms e = subst (λ (o : Option ℕ). 0 < elim o [ none ↦ 1 | some m ↦ m ]) e (omega arith)

emit_derived-resume_example :
    let (bs, cursor) = emit_derived 3600000 (some 3600000) 8000000 0 in
    let (bs', cursor') = emit_derived 3600000 (some 3600000) 11000000 cursor in
    (bs ++ bs', cursor') ≡ emit_derived 3600000 (some 3600000) 11000000 0
emit_derived-resume_example =
    emit_derived-resume 3600000 (some 3600000) 8000000 11000000 0 (omega arith) (omega arith)
      is_later

emit_passes-resume_example :
    let (hours, hour_cursor') = emit_hourly (some 90000000) 100000000 0 in
    let (hours', hour_cursor'') = emit_hourly (some 90000000) 200000000 hour_cursor' in
    let (days, day_cursor') = emit_daily (some 90000000) 100000000 0 in
    let (days', day_cursor'') = emit_daily (some 90000000) 200000000 day_cursor' in
    ((hours ++ hours', hour_cursor'') ≡ emit_hourly (some 90000000) 200000000 0)
    × ((days ++ days', day_cursor'') ≡ emit_daily (some 90000000) 200000000 0)
emit_passes-resume_example =
    emit_passes-resume (some 90000000) 100000000 200000000 0 0 (omega arith) (omega arith)

sum_buckets-period_example :
    sum_buckets some_spans 3600000 (3600000 ∷ 7200000 ∷ [])
    ≡ state_occupancy some_spans 3600000 10800000
sum_buckets-period_example =
    sum_buckets-period some_spans 3600000 3600000 (3600000 ∷ 7200000 ∷ []) 10800000
      (refl, (refl, refl))

abbrev some_cycles : List Cycle
some_cycles =
    cycle_row 4000 (record (new_interval "ORD-1" true 2000 "completed") {
      ended_ms = 4000;
      glass_count = some 2;
    })
    ∷ cycle_row 9000
        (record (new_interval "ORD-2" true 8000 "faulted_recoverable") { ended_ms = 9000 })
    ∷ []

aggregate_test : aggregate_cycles some_cycles 0 5000 ≡ record {
  glasses = 2;
  started = 1;
  completed = 1;
  faulted = 0;
  cycle_ms = 2000;
  cycle_count = 1;
}
unfolding aggregate_cycles is_aggregated add_cycle glasses_of is_faulted cycle_row new_interval
aggregate_test = refl

aggregate_cycles_split_example :
    plus_cycles (aggregate_cycles some_cycles 0 5000) (aggregate_cycles some_cycles 5000 10000)
    ≡ aggregate_cycles some_cycles 0 10000
aggregate_cycles_split_example =
    aggregate_cycles_split some_cycles 0 5000 10000 (omega arith) (omega arith)

abbrev a_clean : ℕ → ℕ → SpanRow
a_clean entered exited =
    span_row (new_interval "MAINT-1" false entered "maintenance")
      (a_span "Maintenance" entered exited)

abbrev cleaned : Replica
cleaned = record empty_replica { state_durations = a_clean 1000 2000 ∷ a_clean 5000 6000 ∷ [] }

abbrev run_summary : CipRun → ℕ × ℕ × Bool
run_summary c = (c.started_at_ms, c.ended_at_ms, c.completed)

cip_runs_test :
    map run_summary (emit_cip_runs cleaned 0 6000).0
    ≡ (1000, 2000, false) ∷ (5000, 6000, false) ∷ []
unfolding emit_cip_runs emit_runs new_cleans is_new_clean exits_before sort cip_run dwell_completes
    cycle_completes span_row
cip_runs_test = refl

emit_cip_runs-resume_example :
    let (runs, marks, high) = emit_cip_runs cleaned 0 3000 in
    let after = record cleaned { cip_runs = cleaned.cip_runs ++ runs; marks = marks } in
    let (runs', marks', high') = emit_cip_runs after high 7000 in
    emit_cip_runs cleaned 0 7000 ≡ (runs ++ runs', marks', high')
emit_cip_runs-resume_example = emit_cip_runs-resume cleaned 0 3000 7000 (omega arith) (omega arith)
