-- ===== src/Rows.antt =====
-- The rows that the projector reads and writes: cmd/projector/reader.go (source rows, with their
-- timestamps parsed) and cmd/projector/writer.go (output rows). A `time.Time` is its number of
-- nanoseconds since 1970; `*int64` is an option; a list of pairs stands for a Go map.
use canebot_projector_repo.Base.{ℕ, ◌/◌, String, Bool, Option, List, ℤ}

-- `t.UnixMilli()`
unfoldable pub unix_milli : ℕ → ℕ
unix_milli t = t / 1000000

pub record SrcFsmEvent : Type 0 where
  pub id : ℕ
  pub ts : ℕ
  pub event_kind : String
  pub state_from : String
  pub state_to : String
  pub current_state : String
  pub step_from : Option ℕ
  pub step_to : Option ℕ
  pub modbus_order_reg : Option ℕ
  pub input_id : String
  pub input_value : Option ℕ
  pub event_type : String
  pub payload_json : String
  pub source : String
  pub trace_id : String
  pub order_key : String
  pub sensors_json : String

pub record SrcFault : Type 0 where
  pub id : ℕ
  pub ts : ℕ
  pub state : String
  pub step : ℕ
  pub fault_type : String
  pub message : String
  pub order_key : String

pub record SrcOrder : Type 0 where
  pub id : ℕ
  pub order_key : String
  pub recipe : ℕ
  pub quantity : ℕ
  pub ts : ℕ

-- `duration_ms` is tested for being positive, so it keeps its sign.
pub record SrcActuatorInterval : Type 0 where
  pub id : ℕ
  pub output_id : String
  pub output_name : String
  pub order_key : String
  pub started : ℕ
  pub started_state : String
  pub started_step : Option ℕ
  pub started_send_ok : Option ℕ
  pub ended : ℕ
  pub ended_state : String
  pub ended_step : Option ℕ
  pub ended_send_ok : Option ℕ
  pub duration_ms : Option ℤ
  pub fault_raised : Option ℕ
  pub fault_type : String
  pub fault_message : String
  pub fault_cleared : Option ℕ

pub record SrcSensorToggle : Type 0 where
  pub id : ℕ
  pub ts : ℕ
  pub input_id : String
  pub input_name : String
  pub value_from : ℕ
  pub value_to : ℕ
  pub current_state : String
  pub current_step : Option ℕ
  pub order_key : String

pub record SrcStepRun : Type 0 where
  pub id : ℕ
  pub started : ℕ
  pub ended : ℕ
  pub current_state : String
  pub step : ℕ
  pub previous_state : String
  pub previous_step : Option ℕ
  pub order_key : String
  pub fault_type : String
  pub fault_message : String
  pub sensors_start : String
  pub sensors_end : String
  pub sensors_trace : String
  pub actuators_json : String

pub record Segment : Type 0 where
  pub start_ts : String
  pub end_ts : String
  pub duration_ms : ℕ
  pub recipe_step : Option ℕ
  pub recipe_origin_state : String

-- `total_run_ms` is tested for being positive, so it keeps its sign.
pub record StepRunActuator : Type 0 where
  pub name : String
  pub total_run_ms : ℤ
  pub segments : List Segment

pub record OutFsmEvent : Type 0 where
  pub event_at_ms : ℕ
  pub order_key : String
  pub src_id : ℕ
  pub event_kind : String
  pub state_from : String
  pub state_to : String
  pub current_state : String
  pub step_from : Option ℕ
  pub step_to : Option ℕ
  pub modbus_order_reg : Option ℕ
  pub input_id : String
  pub input_value : Option ℕ
  pub event_type : String
  pub source : String
  pub trace_id : String
  pub payload_json : String
  pub sensors_json : String

pub record OutStateDuration : Type 0 where
  pub entered_at_ms : ℕ
  pub exited_at_ms : ℕ
  pub duration_ms : ℕ
  pub order_key : String
  pub state : String
  pub entry_reason : String
  pub exit_reason : String

pub record OutStepDwell : Type 0 where
  pub started_at_ms : ℕ
  pub ended_at_ms : ℕ
  pub duration_ms : ℕ
  pub order_key : String
  pub lane : String
  pub state : String
  pub step : Option ℕ
  pub seq_index : ℕ
  pub previous_state : String
  pub previous_step : Option ℕ
  pub event_count : ℕ
  pub io_event_count : ℕ
  pub transition_count : ℕ
  pub fault_count : ℕ
  pub sensors_start : String
  pub sensors_end : String
  pub sensors_trace : String
  pub actuators_json : String
  pub source_kind : String
  pub fault_type : String
  pub fault_message : String

pub record OutStepActuator : Type 0 where
  pub step_started_at_ms : ℕ
  pub step_ended_at_ms : ℕ
  pub order_key : String
  pub lane : String
  pub state : String
  pub step : Option ℕ
  pub seq_index : ℕ
  pub output_id : String
  pub output_name : String
  pub total_run_ms : ℤ
  pub segment_count : ℕ
  pub recipe_step : Option ℕ
  pub recipe_origin_state : String

pub record OutFaultEvent : Type 0 where
  pub raised_at_ms : ℕ
  pub cleared_at_ms : Option ℕ
  pub downtime_ms : Option ℕ
  pub order_key : String
  pub fault_key : String
  pub fault_type : String
  pub severity : String
  pub recovered : Option ℕ
  pub recovery_at_ms : Option ℕ
  pub state : String
  pub step : ℕ
  pub message : String
  pub dwell_seq_index : Option ℕ

pub record OutSensorToggle : Type 0 where
  pub event_at_ms : ℕ
  pub order_key : String
  pub src_id : ℕ
  pub input_id : String
  pub input_name : String
  pub value_from : ℕ
  pub value_to : ℕ
  pub current_state : String
  pub current_step : Option ℕ

-- `ms_to_first_reset` is negative where the reset is stamped before the opening.
pub record OutDoorEvent : Type 0 where
  pub opened_at_ms : ℕ
  pub closed_at_ms : ℕ
  pub duration_ms : ℕ
  pub order_key : String
  pub fault_reset_count : ℕ
  pub first_reset_at_ms : Option ℕ
  pub last_reset_at_ms : Option ℕ
  pub ms_to_first_reset : Option ℤ
  pub state_at_open : String
  pub step_at_open : Option ℕ
  pub state_at_close : String
  pub step_at_close : Option ℕ
  pub opened_in_error : Bool

pub record OutConfigChange : Type 0 where
  pub changed_at_ms : ℕ
  pub order_key : String
  pub config_key : String
  pub old_value : String
  pub new_value : String

pub record OutActuatorInterval : Type 0 where
  pub started_at_ms : ℕ
  pub ended_at_ms : ℕ
  pub duration_ms : ℕ
  pub order_key : String
  pub src_id : ℕ
  pub revision : ℕ
  pub output_id : String
  pub output_name : String
  pub started_state : String
  pub started_step : Option ℕ
  pub started_send_ok : Option ℕ
  pub ended_state : String
  pub ended_step : Option ℕ
  pub ended_send_ok : Option ℕ
  pub fault_type : String
  pub fault_message : String
  pub fault_raised_at_ms : Option ℕ
  pub fault_cleared_at_ms : Option ℕ
