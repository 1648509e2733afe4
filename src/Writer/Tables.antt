-- ===== src/Writer/Tables.antt =====
-- The replica's rows, as cmd/projector/writer.go inserts them: the output row with the columns that
-- the writer adds. An `event_ts` is the number of milliseconds that its text shows, and a date is the
-- number of its day since 1970. A bit string is the list of its characters.
use canebot_projector_repo.Base.{ℕ, String, Bool, Option, List, []}
use canebot_projector_repo.Rows.{
  OutStateDuration, OutStepDwell, OutFaultEvent, OutSensorToggle, OutDoorEvent, OutConfigChange,
  OutActuatorInterval,
}

pub record Cycle : Type 0 where
  pub event_ts : ℕ
  pub started_at_ms : ℕ
  pub ended_at_ms : ℕ
  pub duration_ms : ℕ
  pub order_id : String
  pub is_production : Bool
  pub result : String
  pub recipe_id : Option ℕ
  pub glass_count : Option ℕ
  pub terminal_state : Option String
  pub terminal_step : Option ℕ
  pub fault_count : ℕ
  pub dominant_fault_type : Option String
  pub first_fault_at_ms : Option ℕ
  pub last_fault_at_ms : Option ℕ
  pub fsm_event_count : ℕ
  pub step_event_count : ℕ
  pub state_transition_count : ℕ
  pub unique_state_count : ℕ
  pub outcome : String
  pub bucket_1m_ms : ℕ
  pub bucket_5m_ms : ℕ
  pub bucket_15m_ms : ℕ
  pub date_utc : ℕ

pub record SpanRow : Type 0 where
  pub event_ts : ℕ
  pub span : OutStateDuration
  pub is_downtime : Bool
  pub is_production : Bool
  pub date_utc : ℕ

pub record DwellRow : Type 0 where
  pub event_ts : ℕ
  pub dwell : OutStepDwell
  pub sensors_start_bits : Option (List ℕ)
  pub sensors_end_bits : Option (List ℕ)
  pub door_closed : Option ℕ
  pub cip_bypass : Option ℕ
  pub step_title : Option String
  pub recipe_id : Option ℕ
  pub is_production : Bool
  pub cycle_result : String
  pub cycle_started_at_ms : ℕ
  pub bucket_1m_ms : ℕ
  pub bucket_5m_ms : ℕ
  pub bucket_15m_ms : ℕ
  pub date_utc : ℕ

pub record FaultRow : Type 0 where
  pub event_ts : ℕ
  pub fault : OutFaultEvent
  pub step_title : Option String
  pub recipe_id : Option ℕ
  pub is_production : Bool
  pub cycle_result : String
  pub cycle_started_at_ms : ℕ
  pub bucket_1m_ms : ℕ
  pub bucket_5m_ms : ℕ
  pub bucket_15m_ms : ℕ
  pub date_utc : ℕ

pub record ToggleRow : Type 0 where
  pub event_ts : ℕ
  pub toggle : OutSensorToggle
  pub is_production : Bool
  pub bucket_1m_ms : ℕ
  pub bucket_5m_ms : ℕ
  pub bucket_15m_ms : ℕ
  pub date_utc : ℕ

pub record DoorRow : Type 0 where
  pub event_ts : ℕ
  pub door : OutDoorEvent
  pub fault_reset_during : Bool
  pub recipe_id : Option ℕ
  pub is_production : Bool
  pub cycle_result : String
  pub date_utc : ℕ

pub record ConfigRow : Type 0 where
  pub event_ts : ℕ
  pub config : OutConfigChange
  pub date_utc : ℕ

pub record ActuatorRow : Type 0 where
  pub event_ts : ℕ
  pub pulse : OutActuatorInterval
  pub recipe_id : Option ℕ
  pub is_production : Bool
  pub cycle_result : Option String
  pub seq_index : Option ℕ
  pub date_utc : ℕ

pub record CipRun : Type 0 where
  pub event_ts : ℕ
  pub started_at_ms : ℕ
  pub ended_at_ms : ℕ
  pub duration_ms : ℕ
  pub order_id : String
  pub completed : Bool
  pub fault_count : ℕ
  pub date_utc : ℕ

-- A column that an insertion does not name is NULL.
pub record RollupRow : Type 0 where
  pub event_ts : ℕ
  pub grain : String
  pub bucket_start_ms : ℕ
  pub date_utc : ℕ
  pub dim_kind : String
  pub dim_key : Option String
  pub glasses : Option ℕ
  pub orders_started : Option ℕ
  pub orders_completed : Option ℕ
  pub orders_faulted : Option ℕ
  pub fault_count : Option ℕ
  pub cip_runs : Option ℕ
  pub cycle_ms_sum : Option ℕ
  pub cycle_count : Option ℕ
  pub run_ms : Option ℕ
  pub error_ms : Option ℕ
  pub maintenance_ms : Option ℕ
  pub idle_ms : Option ℕ
  pub occurrences : Option ℕ
  pub duration_ms_sum : Option ℕ
  pub duration_ms_max : Option ℕ
  pub severity : Option String
  pub lane : Option String

-- The order of a gap is always NULL.
pub record GapRow : Type 0 where
  pub event_ts : ℕ
  pub started_at_ms : ℕ
  pub ended_at_ms : ℕ
  pub duration_ms : ℕ
  pub reason : String
  pub version : Option String
  pub source_branch : Option String

-- The replica's tables, and the watermarks of the state store.
pub record Replica : Type 0 where
  pub cycles : List Cycle
  pub state_durations : List SpanRow
  pub step_dwells : List DwellRow
  pub fault_events : List FaultRow
  pub sensor_toggles : List ToggleRow
  pub door_events : List DoorRow
  pub config_history : List ConfigRow
  pub actuator_intervals : List ActuatorRow
  pub cip_runs : List CipRun
  pub rollups : List RollupRow
  pub gaps : List GapRow
  pub marks : List (String × ℕ)

abbrev pub empty_replica : Replica
empty_replica = record {
  cycles = [];
  state_durations = [];
  step_dwells = [];
  fault_events = [];
  sensor_toggles = [];
  door_events = [];
  config_history = [];
  actuator_intervals = [];
  cip_runs = [];
  rollups = [];
  gaps = [];
  marks = [];
}
