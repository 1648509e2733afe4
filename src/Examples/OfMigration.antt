-- ===== src/Examples/OfMigration.antt =====
-- The fold of the older rollup tables, for a replica that has two of them.
use canebot_projector_repo.Base.{
  ℕ, ◌≡◌, refl, String, Option, none, some, List, [], ◌∷◌, ◌++◌, map, All,
}
use canebot_projector_repo.Tracker.Invariant.Defs.{OnSome}
use canebot_projector_repo.Writer.Tables.{RollupRow}
use canebot_projector_repo.Writer.Keys.{
  conflicts, has_key, insert_rollup, insert_rollups, AreUniqueKeys,
}
use canebot_projector_repo.Rollup.Migration.{
  HourlyRollup, FaultCount, daily_row, step_stat_row, OlderTables, no_older_tables, hourly_row,
  fault_count_row, selected, selections, fold_in, migrate_rollups,
}
use canebot_projector_repo.Rollup.Migrated.{IsHeld, migrate_rollups_lem}

abbrev an_hour : HourlyRollup
an_hour = record {
  event_ts = 7200000;
  bucket_start_ms = 3600000;
  date_utc = 0;
  glasses = some 3;
  orders_started = some 2;
  orders_completed = some 2;
  orders_faulted = some 0;
  fault_count = some 1;
  cip_runs = some 0;
  cycle_ms_sum = some 90000;
  cycle_count = some 2;
  run_ms = some 90000;
  error_ms = some 0;
  maintenance_ms = some 0;
  idle_ms = some 3510000;
}

abbrev a_count : ℕ → FaultCount
a_count n = record {
  event_ts = 7200000;
  bucket_start_ms = 3600000;
  date_utc = 0;
  fault_type = "jam";
  severity = some "minor";
  occurrences = some n;
  downtime_ms_sum = some 1000;
}

abbrev an_older : OlderTables
an_older = record no_older_tables {
  hourly_rollups = some (an_hour ∷ []);
  hourly_fault_counts = some (a_count 1 ∷ []);
}

-- The row of a fault type that is there already stays.
rows_folded :
    let (old, ws, folded) = migrate_rollups an_older (fault_count_row (a_count 4) ∷ []) in
    (map {B = String × Option ℕ} (λ (w : RollupRow). (w.dim_kind, w.occurrences)) ws
      ≡ ("fault_type", some 4) ∷ ("machine", none) ∷ [])
    × (folded ≡ 2)
unfolding migrate_rollups selections selected fold_in insert_rollups insert_rollup has_key conflicts
    hourly_row fault_count_row
rows_folded = (refl, refl)

-- A pass that stops between the copy of the hours and the drop of their table: the next one copies
-- them again.
hours_twice :
    let copied = insert_rollups [] (selected hourly_row an_older.hourly_rollups) in
    let (old, ws, folded) = migrate_rollups an_older copied in
    map {B = String × Option ℕ} (λ (w : RollupRow). (w.dim_kind, w.glasses)) ws
    ≡ ("machine", some 3) ∷ ("machine", some 3) ∷ ("fault_type", none) ∷ []
unfolding migrate_rollups selections selected fold_in insert_rollups insert_rollup has_key conflicts
    hourly_row fault_count_row
hours_twice = refl

one_key : AreUniqueKeys (fault_count_row (a_count 4) ∷ [])
unfolding has_key
one_key = (refl, tt)

migrate_rollups_lem_example :
    let (old', ws', folded) = migrate_rollups an_older (fault_count_row (a_count 4) ∷ []) in
    ((added : List RollupRow) × (ws' ≡ (fault_count_row (a_count 4) ∷ []) ++ added))
    × AreUniqueKeys ws'
    × OnSome (All (λ h. IsHeld (hourly_row h) ws')) an_older.hourly_rollups
    × OnSome (All (λ d. IsHeld (daily_row d) ws')) an_older.daily_rollups
    × OnSome (All (λ f. IsHeld (fault_count_row f) ws')) an_older.hourly_fault_counts
    × OnSome (All (λ s. IsHeld (step_stat_row s) ws')) an_older.hourly_step_stats
    × (migrate_rollups old' ws' ≡ (old', ws', 0))
migrate_rollups_lem_example =
    migrate_rollups_lem an_older (fault_count_row (a_count 4) ∷ []) one_key
