-- ===== src/Writer/Rows.antt =====
-- The row that `FlushInterval` of cmd/projector/writer.go inserts for each part of an interval.
use canebot_projector_repo.Base.{
  ℕ, ◌-◌, ◌/◌, String, Bool, ◌||◌, Option, none, some, List, [], ◌∷◌, length, str_eq, ltb,
  if◌then◌else◌,
}
use canebot_projector_repo.Tracker.Doors.{IoPins}
use canebot_projector_repo.Sensors.Tags.{build_sensor_bit_order}
use canebot_projector_repo.Sensors.Bits.{Decoder, encode_sensor_bits, door_closed, cip_bypass}
use canebot_projector_repo.Rows.{
  OutStateDuration, OutStepDwell, OutFaultEvent, OutSensorToggle, OutDoorEvent, OutConfigChange,
}
use canebot_projector_repo.Labels.{outcome_for}
use canebot_projector_repo.Rollup.Buckets.{bucket_ms, day_ms}
use canebot_projector_repo.Tracker.State.{Interval}
use canebot_projector_repo.Writer.Tables.{
  Cycle, SpanRow, DwellRow, FaultRow, ToggleRow, DoorRow, ConfigRow,
}

unfoldable pub bucket_1m : ℕ → ℕ
unfolding bucket_ms
bucket_1m ms = bucket_ms ms 60000

unfoldable pub bucket_5m : ℕ → ℕ
unfolding bucket_ms
bucket_5m ms = bucket_ms ms 300000

unfoldable pub bucket_15m : ℕ → ℕ
unfolding bucket_ms
bucket_15m ms = bucket_ms ms 900000

unfoldable pub date_utc : ℕ → ℕ
date_utc ms = ms / day_ms

unfoldable pub null_if_empty : String → Option String
null_if_empty s = if str_eq s "" then none else some s

unfoldable pub is_downtime_state : String → Bool
is_downtime_state state = str_eq state "Error" || str_eq state "Maintenance"

-- `stateByName`, as the states that it has.
unfoldable pub is_known_state : String → Bool
is_known_state state =
    str_eq state "HomeIdle"
    || (str_eq state "Manual"
        || (str_eq state "Error" || (str_eq state "Maintenance" || str_eq state "AutoCycle")))

-- `stepTitle`, where `description` is the firmware's `fsm.GetStepDescription`.
unfoldable pub step_title : (String → ℕ → String) → String → Option ℕ → String
step_title description state none = ""
step_title description state (some step) =
    if is_known_state state then description state step else ""

unfoldable pub cycle_row : ℕ → Interval → Cycle
unfolding bucket_1m bucket_5m bucket_15m
cycle_row ts iv = record {
  event_ts = ts;
  started_at_ms = iv.started_ms;
  ended_at_ms = iv.ended_ms;
  duration_ms = iv.ended_ms - iv.started_ms;
  order_id = iv.order_key;
  is_production = iv.is_production;
  result = iv.result;
  recipe_id = iv.recipe_id;
  glass_count = iv.glass_count;
  terminal_state = null_if_empty iv.terminal_state;
  terminal_step = iv.terminal_step;
  fault_count = iv.fault_count;
  dominant_fault_type = null_if_empty iv.dominant_fault_type;
  first_fault_at_ms = iv.first_fault_ms;
  last_fault_at_ms = iv.last_fault_ms;
  fsm_event_count = iv.fsm_event_count;
  step_event_count = iv.step_event_count;
  state_transition_count = iv.state_transition_count;
  unique_state_count = length iv.unique_states;
  outcome = outcome_for iv.result iv.is_production;
  bucket_1m_ms = bucket_1m iv.started_ms;
  bucket_5m_ms = bucket_5m iv.started_ms;
  bucket_15m_ms = bucket_15m iv.started_ms;
  date_utc = date_utc iv.started_ms;
}

unfoldable pub span_row : Interval → OutStateDuration → SpanRow
span_row iv s = record {
  event_ts = s.exited_at_ms;
  span = s;
  is_downtime = is_downtime_state s.state;
  is_production = iv.is_production;
  date_utc = date_utc s.entered_at_ms;
}

-- What the controller's packages canebot-fsm/fsm and canebot-fsm/io say, and what encoding/json reads.
pub record Firmware : Type 0 where
  pub description : String → ℕ → String
  pub inputs : List String
  pub io : IoPins
  pub decode : Decoder

-- `nullIfEmpty` of a bit string.
unfoldable pub null_if_no_bits : List ℕ → Option (List ℕ)
null_if_no_bits [] = none
null_if_no_bits (b ∷ bits) = some (b ∷ bits)

unfoldable pub dwell_row : Firmware → Interval → OutStepDwell → DwellRow
dwell_row firmware iv d = record {
  event_ts = d.ended_at_ms;
  dwell = d;
  sensors_start_bits =
      null_if_no_bits (
        encode_sensor_bits (build_sensor_bit_order firmware.inputs) firmware.decode
          d.sensors_start);
  sensors_end_bits =
      null_if_no_bits
        (encode_sensor_bits (build_sensor_bit_order firmware.inputs) firmware.decode d.sensors_end);
  door_closed = door_closed firmware.io firmware.decode d.sensors_start;
  cip_bypass = cip_bypass firmware.io firmware.decode d.sensors_start;
  step_title = null_if_empty (step_title firmware.description d.state d.step);
  recipe_id = iv.recipe_id;
  is_production = iv.is_production;
  cycle_result = iv.result;
  cycle_started_at_ms = iv.started_ms;
  bucket_1m_ms = bucket_1m d.started_at_ms;
  bucket_5m_ms = bucket_5m d.started_at_ms;
  bucket_15m_ms = bucket_15m d.started_at_ms;
  date_utc = date_utc d.started_at_ms;
}

-- A fault is stamped when it was cleared, or if it never was when it was raised.
unfoldable pub fault_ts : OutFaultEvent → ℕ
fault_ts f = elim f.cleared_at_ms [ none ↦ f.raised_at_ms | some ms ↦ ms ]

unfoldable pub fault_event_row : (String → ℕ → String) → Interval → OutFaultEvent → FaultRow
unfolding fault_ts
fault_event_row description iv f = record {
  event_ts = fault_ts f;
  fault = f;
  step_title = null_if_empty (step_title description f.state (some f.step));
  recipe_id = iv.recipe_id;
  is_production = iv.is_production;
  cycle_result = iv.result;
  cycle_started_at_ms = iv.started_ms;
  bucket_1m_ms = bucket_1m f.raised_at_ms;
  bucket_5m_ms = bucket_5m f.raised_at_ms;
  bucket_15m_ms = bucket_15m f.raised_at_ms;
  date_utc = date_utc f.raised_at_ms;
}

unfoldable pub toggle_row : Interval → OutSensorToggle → ToggleRow
toggle_row iv s = record {
  event_ts = s.event_at_ms;
  toggle = s;
  is_production = iv.is_production;
  bucket_1m_ms = bucket_1m s.event_at_ms;
  bucket_5m_ms = bucket_5m s.event_at_ms;
  bucket_15m_ms = bucket_15m s.event_at_ms;
  date_utc = date_utc s.event_at_ms;
}

unfoldable pub door_row : Interval → OutDoorEvent → DoorRow
door_row iv d = record {
  event_ts = d.closed_at_ms;
  door = d;
  fault_reset_during = ltb 0 d.fault_reset_count;
  recipe_id = iv.recipe_id;
  is_production = iv.is_production;
  cycle_result = iv.result;
  date_utc = date_utc d.opened_at_ms;
}

unfoldable pub config_row : OutConfigChange → ConfigRow
config_row c = record {
  event_ts = c.changed_at_ms;
  config = c;
  date_utc = date_utc c.changed_at_ms;
}
