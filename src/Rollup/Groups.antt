-- ===== src/Rollup/Groups.antt =====
-- `emitFaultTypeRollups` and `emitStepRollups` of cmd/projector/rollup.go: the faults of a period by
-- type, and its dwells by lane, state and step.
use canebot_projector_repo.Base.{
  ℕ, String, Bool, true, false, ◌&&◌, Option, none, some, List, [], ◌∷◌, map, filter, length, sort,
  sort_strings, str_eq, str_lt, ◌&◌, show, ltb, ◌==◌, if◌then◌else◌,
}
use canebot_projector_repo.Writer.Tables.{DwellRow, FaultRow, RollupRow, Replica}
use canebot_projector_repo.Writer.Rows.{date_utc}
use canebot_projector_repo.Writer.Marks.{set_watermark}
use canebot_projector_repo.Writer.Keys.{insert_rollups}
use canebot_projector_repo.Rollup.CipRuns.{is_between}
use canebot_projector_repo.Rollup.Grouping.{groups, group_of, sum_of, max_of}

-- `stepDimKey`
unfoldable pub step_dim_key : String → Option ℕ → String
step_dim_key state none = state
step_dim_key state (some step) = state & ("/" & show step)

-- A row of which only the key is set.
abbrev pub blank_row : ℕ → String → ℕ → String → Option String → RollupRow
blank_row ts grain bucket_start kind key = record {
  event_ts = ts;
  grain = grain;
  bucket_start_ms = bucket_start;
  date_utc = date_utc bucket_start;
  dim_kind = kind;
  dim_key = key;
  glasses = none;
  orders_started = none;
  orders_completed = none;
  orders_faulted = none;
  fault_count = none;
  cip_runs = none;
  cycle_ms_sum = none;
  cycle_count = none;
  run_ms = none;
  error_ms = none;
  maintenance_ms = none;
  idle_ms = none;
  occurrences = none;
  duration_ms_sum = none;
  duration_ms_max = none;
  severity = none;
  lane = none;
}

-- `raised_at_ms >= ? AND raised_at_ms < ?`
unfoldable pub faults_in : ℕ → ℕ → List FaultRow → List FaultRow
unfolding is_between
faults_in start end = filter (λ (f : FaultRow). is_between start end f.fault.raised_at_ms)

-- `GROUP BY fault_type`
unfoldable pub fault_types : List FaultRow → List String
unfolding groups
fault_types = groups str_eq (λ (f : FaultRow). f.fault.fault_type)

unfoldable pub of_type : String → List FaultRow → List FaultRow
unfolding group_of
of_type = group_of str_eq (λ (f : FaultRow). f.fault.fault_type)

-- `MIN(severity)` of a group, which has a row.
unfoldable pub min_severity : List FaultRow → String
min_severity [] = ""
min_severity (f ∷ []) = f.fault.severity
min_severity (f ∷ g ∷ fs) =
    let rest = min_severity (g ∷ fs) in
    if str_lt f.fault.severity rest then f.fault.severity else rest

-- `downtime_ms`, of which `SUM` passes over NULL.
unfoldable pub downtime : FaultRow → ℕ
downtime f = elim f.fault.downtime_ms [ none ↦ 0 | some ms ↦ ms ]

unfoldable pub fault_type_row : String → ℕ → ℕ → List FaultRow → String → RollupRow
unfolding of_type min_severity sum_of downtime
fault_type_row grain bucket_start ts faults type =
    let group = of_type type faults in
    record (blank_row ts grain bucket_start "fault_type" (some type)) {
      severity = some (min_severity group);
      occurrences = some (length group);
      duration_ms_sum = some (sum_of downtime group);
    }

unfoldable pub fault_type_rows : String → ℕ → ℕ → ℕ → List FaultRow → List RollupRow
unfolding faults_in fault_types fault_type_row sort_strings
fault_type_rows grain start end ts faults =
    let found = faults_in start end faults in
    map (fault_type_row grain start ts found) (sort_strings (fault_types found))

-- `if len(out) > 0 { SetWatermark }`
unfoldable pub mark_rows : String → ℕ → List RollupRow → List (String × ℕ) → List (String × ℕ)
unfolding set_watermark
mark_rows table ts [] marks = marks
mark_rows table ts (w ∷ ws) marks = set_watermark marks table ts

unfoldable pub emit_fault_type_rollups : String → ℕ → ℕ → ℕ → Replica → Replica
unfolding fault_type_rows mark_rows insert_rollups
emit_fault_type_rollups grain start end ts r =
    let out = fault_type_rows grain start end ts r.fault_events in
    record r {
      rollups = insert_rollups r.rollups out;
      marks = mark_rows "hourly_fault_counts" ts out r.marks;
    }

-- A group of dwells: `GROUP BY lane, state, step`.
abbrev pub StepKey : Type 0
StepKey = String × String × Option ℕ

abbrev pub step_key : DwellRow → StepKey
step_key d = (d.dwell.lane, d.dwell.state, d.dwell.step)

unfoldable pub same_option : Option ℕ → Option ℕ → Bool
same_option none none = true
same_option none (some b) = false
same_option (some a) none = false
same_option (some a) (some b) = a == b

unfoldable pub same_key : StepKey → StepKey → Bool
unfolding same_option
same_key (l, s, n) (l', s', n') = str_eq l l' && (str_eq s s' && same_option n n')

-- NULL comes first.
unfoldable pub option_lt : Option ℕ → Option ℕ → Bool
option_lt a none = false
option_lt none (some b) = true
option_lt (some a) (some b) = ltb a b

-- `ORDER BY lane, state, step`
unfoldable pub key_lt : StepKey → StepKey → Bool
unfolding option_lt
key_lt (l, s, n) (l', s', n') =
    if str_eq l l' then if str_eq s s' then option_lt n n' else str_lt s s' else str_lt l l'

unfoldable pub dwells_in : ℕ → ℕ → List DwellRow → List DwellRow
unfolding is_between
dwells_in start end = filter (λ (d : DwellRow). is_between start end d.dwell.started_at_ms)

unfoldable pub step_keys : List DwellRow → List StepKey
unfolding groups same_key
step_keys = groups same_key step_key

unfoldable pub of_step : StepKey → List DwellRow → List DwellRow
unfolding group_of same_key
of_step = group_of same_key step_key

unfoldable pub step_row : String → ℕ → ℕ → List DwellRow → StepKey → RollupRow
unfolding step_dim_key of_step sum_of max_of
step_row grain bucket_start ts dwells (lane, state, step) =
    let group = of_step (lane, state, step) dwells in
    let ms = λ (d : DwellRow). d.dwell.duration_ms in
    record (blank_row ts grain bucket_start "step" (some (step_dim_key state step))) {
      lane = some lane;
      occurrences = some (length group);
      duration_ms_sum = some (sum_of ms group);
      duration_ms_max = some (max_of ms group);
    }

unfoldable pub step_rows : String → ℕ → ℕ → ℕ → List DwellRow → List RollupRow
unfolding dwells_in step_keys step_row key_lt sort
step_rows grain start end ts dwells =
    let found = dwells_in start end dwells in
    map (step_row grain start ts found) (sort key_lt (step_keys found))

unfoldable pub emit_step_rollups : String → ℕ → ℕ → ℕ → Replica → Replica
unfolding step_rows mark_rows insert_rollups
emit_step_rollups grain start end ts r =
    let out = step_rows grain start end ts r.step_dwells in
    record r {
      rollups = insert_rollups r.rollups out;
      marks = mark_rows "hourly_step_stats" ts out r.marks;
    }
