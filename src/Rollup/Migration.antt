-- ===== src/Rollup/Migration.antt =====
-- `migrateRollups` of cmd/projector/writer.go: the four older tables of rollups are folded into one.
use canebot_projector_repo.Base.{ℕ, ◌+◌, ◌*◌, String, Option, none, some, List, [], ◌∷◌, map}
use canebot_projector_repo.Writer.Tables.{RollupRow}
use canebot_projector_repo.Writer.Keys.{insert_rollups}
use canebot_projector_repo.Rollup.Buckets.{day_ms}
use canebot_projector_repo.Rollup.Groups.{step_dim_key, blank_row}

pub record HourlyRollup : Type 0 where
  pub event_ts : ℕ
  pub bucket_start_ms : ℕ
  pub date_utc : ℕ
  pub glasses : Option ℕ
  pub orders_started : Option ℕ
  pub orders_completed : Option ℕ
  pub orders_faulted : Option ℕ
  pub fault_count : Option ℕ
  pub cip_runs : Option ℕ
  pub cycle_ms_sum : Option ℕ
  pub cycle_count : Option ℕ
  pub run_ms : Option ℕ
  pub error_ms : Option ℕ
  pub maintenance_ms : Option ℕ
  pub idle_ms : Option ℕ

pub record DailyRollup : Type 0 where
  pub event_ts : ℕ
  pub date_utc : ℕ
  pub glasses : Option ℕ
  pub orders_completed : Option ℕ
  pub orders_faulted : Option ℕ
  pub fault_count : Option ℕ
  pub cycle_ms_sum : Option ℕ
  pub cycle_count : Option ℕ
  pub run_ms : Option ℕ
  pub error_ms : Option ℕ
  pub maintenance_ms : Option ℕ
  pub idle_ms : Option ℕ

pub record FaultCount : Type 0 where
  pub event_ts : ℕ
  pub bucket_start_ms : ℕ
  pub date_utc : ℕ
  pub fault_type : String
  pub severity : Option String
  pub occurrences : Option ℕ
  pub downtime_ms_sum : Option ℕ

pub record StepStat : Type 0 where
  pub event_ts : ℕ
  pub bucket_start_ms : ℕ
  pub date_utc : ℕ
  pub lane : Option String
  pub state : String
  pub step : Option ℕ
  pub dwell_count : Option ℕ
  pub duration_ms_sum : Option ℕ
  pub duration_ms_max : Option ℕ

-- The older tables, each of which may be missing.
pub record OlderTables : Type 0 where
  pub hourly_rollups : Option (List HourlyRollup)
  pub daily_rollups : Option (List DailyRollup)
  pub hourly_fault_counts : Option (List FaultCount)
  pub hourly_step_stats : Option (List StepStat)

abbrev pub no_older_tables : OlderTables
no_older_tables = record {
  hourly_rollups = none;
  daily_rollups = none;
  hourly_fault_counts = none;
  hourly_step_stats = none;
}

unfoldable pub hourly_row : HourlyRollup → RollupRow
hourly_row h = record (blank_row h.event_ts "hour" h.bucket_start_ms "machine" none) {
  date_utc = h.date_utc;
  glasses = h.glasses;
  orders_started = h.orders_started;
  orders_completed = h.orders_completed;
  orders_faulted = h.orders_faulted;
  fault_count = h.fault_count;
  cip_runs = h.cip_runs;
  cycle_ms_sum = h.cycle_ms_sum;
  cycle_count = h.cycle_count;
  run_ms = h.run_ms;
  error_ms = h.error_ms;
  maintenance_ms = h.maintenance_ms;
  idle_ms = h.idle_ms;
}

-- The bucket begins with the date: `strftime('%s', date_utc) * 1000`.
unfoldable pub daily_row : DailyRollup → RollupRow
daily_row d = record (blank_row d.event_ts "day" (d.date_utc * day_ms) "machine" none) {
  date_utc = d.date_utc;
  glasses = d.glasses;
  orders_completed = d.orders_completed;
  orders_faulted = d.orders_faulted;
  fault_count = d.fault_count;
  cycle_ms_sum = d.cycle_ms_sum;
  cycle_count = d.cycle_count;
  run_ms = d.run_ms;
  error_ms = d.error_ms;
  maintenance_ms = d.maintenance_ms;
  idle_ms = d.idle_ms;
}

unfoldable pub fault_count_row : FaultCount → RollupRow
fault_count_row f =
    record (blank_row f.event_ts "hour" f.bucket_start_ms "fault_type" (some f.fault_type)) {
      date_utc = f.date_utc;
      severity = f.severity;
      occurrences = f.occurrences;
      duration_ms_sum = f.downtime_ms_sum;
    }

unfoldable pub step_stat_row : StepStat → RollupRow
unfolding step_dim_key
step_stat_row s =
    record (blank_row s.event_ts "hour" s.bucket_start_ms "step"
      (some (step_dim_key s.state s.step))) {
        date_utc = s.date_utc;
        lane = s.lane;
        occurrences = s.dwell_count;
        duration_ms_sum = s.duration_ms_sum;
        duration_ms_max = s.duration_ms_max;
      }

-- What the SELECT of a copy yields; a missing table is passed over.
unfoldable pub selected : {A : Type 0} → (A → RollupRow) → Option (List A) → List RollupRow
selected row none = []
selected row (some rows) = map row rows

-- The four SELECTs, in the order of the loop.
unfoldable pub selections : OlderTables → List (List RollupRow)
unfolding selected hourly_row daily_row fault_count_row step_stat_row
selections old =
    selected hourly_row old.hourly_rollups
    ∷ selected daily_row old.daily_rollups
    ∷ selected fault_count_row old.hourly_fault_counts
    ∷ selected step_stat_row old.hourly_step_stats
    ∷ []

-- The loop's insertions.
unfoldable pub fold_in : List (List RollupRow) → List RollupRow → List RollupRow
unfolding insert_rollups
fold_in [] ws = ws
fold_in (rows ∷ tables) ws = fold_in tables (insert_rollups ws rows)

abbrev pub present : {A : Type 0} → Option A → ℕ
present none = 0
present (some x) = 1

-- `migrateRollups`, with the number of tables that it folded.
unfoldable pub migrate_rollups : OlderTables → List RollupRow → OlderTables × List RollupRow × ℕ
unfolding selections fold_in
migrate_rollups old ws = (
  no_older_tables,
  fold_in (selections old) ws,
  present old.hourly_rollups
      + present old.daily_rollups
      + present old.hourly_fault_counts
      + present old.hourly_step_stats,
)
