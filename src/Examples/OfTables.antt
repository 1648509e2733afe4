-- ===== src/Examples/OfTables.antt =====
-- The theorems on the tables of cmd/projector/rollup.go, for three faults and two dwells of an hour.
use canebot_projector_repo.Base.{
  All, IsIn, ◌++◌, ℕ, ◌+◌, ◌≡◌, refl, suc, String, true, Option, none, some, List, [], ◌∷◌, ◌++◌,
  map, length, sort, sort_strings, show,
}
use canebot_projector_repo.Writer.Tables.{DwellRow, FaultRow, RollupRow, empty_replica}
use canebot_projector_repo.Writer.Rows.{fault_ts, fault_event_row, dwell_row}
use canebot_projector_repo.Writer.Keys.{AreUniqueKeys}
use canebot_projector_repo.Writer.Consistency.{IsConsistent}
use canebot_projector_repo.Rollup.CipRuns.{is_between}
use canebot_projector_repo.Rollup.Grouping.{sum_of, max_of, add_group, groups, group_of}
use canebot_projector_repo.Rollup.Groups.{
  emit_step_rollups, StepKey, step_key, step_dim_key, faults_in, fault_types, of_type, min_severity,
  downtime, fault_type_row, fault_type_rows, emit_fault_type_rollups, same_option, same_key,
  option_lt, key_lt, dwells_in, step_keys, of_step, step_row, step_rows,
}
use canebot_projector_repo.Rollup.Totals.{occurrences_in, duration_in}
use canebot_projector_repo.Rollup.Migrated.{IsHeld}
use canebot_projector_repo.Rollup.Partition.{
  IsTypeRow, IsStepRow, emit_fault_type_rollups_lem, emit_step_rollups_lem,
}
use canebot_projector_repo.Rollup.Derived.{
  RollupCursors, emit_hour_bucket, emit_day_bucket, emit_all_derived,
}
use canebot_projector_repo.Rollup.Machine.{machine_rows, emit_bucket-machine}
use canebot_projector_repo.Rollup.Upkeep.{emit_all_derived-IsConsistent}
use canebot_projector_repo.Examples.Replicas.{
  a_cycle, a_dwell, no_title, a_firmware, one_cycle, one_cycle-IsConsistent,
}

abbrev a_fault_row : String → ℕ → ℕ → FaultRow
a_fault_row fault_type raised_at_ms lasted = fault_event_row no_title a_cycle (record {
  raised_at_ms = raised_at_ms;
  cleared_at_ms = some (raised_at_ms + lasted);
  downtime_ms = some lasted;
  order_key = "ORD-1";
  fault_key = "";
  fault_type = fault_type;
  severity = "recoverable";
  recovered = none;
  recovery_at_ms = none;
  state = "AutoCycle";
  step = 3;
  message = "";
  dwell_seq_index = none;
})

abbrev some_faults : List FaultRow
some_faults =
    a_fault_row "TilterMotorFault" 1000 10
    ∷ a_fault_row "CupMissing" 2000 20
    ∷ a_fault_row "TilterMotorFault" 3000 30
    ∷ a_fault_row "CupMissing" 3600000 40
    ∷ []

abbrev row_summary : RollupRow → Option String × Option ℕ × Option ℕ × Option ℕ
row_summary w = (w.dim_key, w.occurrences, w.duration_ms_sum, w.duration_ms_max)

fault_rows_test :
    map row_summary (fault_type_rows "hour" 0 3600000 3600000 some_faults)
    ≡ (some "CupMissing", some 1, some 20, none)
      ∷ (some "TilterMotorFault", some 2, some 40, none)
      ∷ []
unfolding fault_type_rows fault_type_row faults_in is_between fault_types groups add_group
    sort_strings sort of_type group_of min_severity downtime sum_of fault_event_row fault_ts
fault_rows_test = refl

emit_fault_type_rollups_example :
    let r = record empty_replica { fault_events = some_faults } in
    let found = faults_in 0 3600000 r.fault_events in
    (rows : List RollupRow) × ((emit_fault_type_rollups "hour" 0 3600000 3600000 r).rollups
      ≡ r.rollups ++ rows)
    × AreUniqueKeys rows
    × All (λ w. (type : String) × IsTypeRow found type w) rows
    × All (λ f. (w : RollupRow) × IsIn w rows × IsTypeRow found f.fault.fault_type w) found
    × (occurrences_in rows ≡ length found)
    × (duration_in rows ≡ sum_of downtime found)
emit_fault_type_rollups_example =
    emit_fault_type_rollups_lem "hour" 0 3600000 3600000
      (record empty_replica { fault_events = some_faults }) tt

abbrev some_dwells : List DwellRow
some_dwells =
    dwell_row a_firmware a_cycle (a_dwell 2000 2800 1)
    ∷ dwell_row a_firmware a_cycle (a_dwell 2800 4000 2)
    ∷ dwell_row a_firmware a_cycle (a_dwell 5000 5500 1)
    ∷ []

step_rows_test :
    map row_summary (step_rows "hour" 0 3600000 3600000 some_dwells)
    ≡ (some "AutoCycle/1", some 2, some 1300, some 800)
      ∷ (some "AutoCycle/2", some 1, some 1200, some 1200)
      ∷ []
unfolding step_rows step_row dwells_in is_between step_keys groups add_group same_key same_option
    sort key_lt option_lt of_step group_of step_dim_key show sum_of max_of dwell_row
step_rows_test = refl

emit_step_rollups_example :
    let r = record empty_replica { step_dwells = some_dwells } in
    let found = dwells_in 0 3600000 r.step_dwells in
    let out = (emit_step_rollups "hour" 0 3600000 3600000 r).rollups in
    (rows : List RollupRow) × All (λ w. (k : StepKey) × IsStepRow found k w) rows
    × All (λ d. (w : RollupRow) × IsIn w rows × IsStepRow found (step_key d) w) found
    × (occurrences_in rows ≡ length found)
    × (duration_in rows ≡ sum_of (λ (d : DwellRow). d.dwell.duration_ms) found)
    × ((added : List RollupRow) × (out ≡ r.rollups ++ added))
    × All (λ w. IsHeld w out) rows
emit_step_rollups_example =
    emit_step_rollups_lem "hour" 0 3600000 3600000
      (record empty_replica { step_dwells = some_dwells })

emit_bucket-machine_example :
    (machine_rows "hour" 0 (emit_hour_bucket one_cycle 0).rollups
      ≡ suc (machine_rows "hour" 0 one_cycle.rollups))
    × (machine_rows "day" 0 (emit_day_bucket one_cycle 0).rollups
        ≡ suc (machine_rows "day" 0 one_cycle.rollups))
emit_bucket-machine_example = emit_bucket-machine one_cycle 0

abbrev no_cursors : RollupCursors
no_cursors = record { cip = 0; hourly = 0; daily = 0 }

emit_all_derived_example :
    let (r', cursors', ok) = emit_all_derived 8000000 one_cycle no_cursors in
    (ok ≡ true) × IsConsistent r'
emit_all_derived_example =
    emit_all_derived-IsConsistent 8000000 one_cycle no_cursors one_cycle-IsConsistent
