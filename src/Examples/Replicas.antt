-- ===== src/Examples/Replicas.antt =====
-- A replica that holds the cycle of an order, with its span of AutoCycle and a dwell.
use canebot_projector_repo.Base.{
  ℕ, ◌-◌, refl, String, true, false, none, some, [], ◌∷◌, arith, lookup, if◌then◌else◌,
}
use canebot_projector_repo.Tracker.Scenarios.{pins}
use canebot_projector_repo.Sensors.Bits.{is_text, Decoder}
use canebot_projector_repo.Rows.{OutStateDuration, OutStepDwell}
use canebot_projector_repo.Tracker.State.{Interval, new_interval}
use canebot_projector_repo.Writer.Tables.{Replica, empty_replica}
use canebot_projector_repo.Writer.Rows.{Firmware, cycle_row, span_row, dwell_row}
use canebot_projector_repo.Writer.Flush.{has_cycle, has_fault}
use canebot_projector_repo.Writer.Consistency.{IsConsistent}

abbrev pub a_span : OutStateDuration
a_span = record {
  entered_at_ms = 2000;
  exited_at_ms = 4000;
  duration_ms = 2000;
  order_key = "ORD-1";
  state = "AutoCycle";
  entry_reason = "state_transition";
  exit_reason = "interval_end";
}

abbrev pub a_dwell : ℕ → ℕ → ℕ → OutStepDwell
a_dwell started ended seq = record {
  started_at_ms = started;
  ended_at_ms = ended;
  duration_ms = ended - started;
  order_key = "ORD-1";
  lane = "main";
  state = "AutoCycle";
  step = some seq;
  seq_index = seq;
  previous_state = "";
  previous_step = none;
  event_count = 1;
  io_event_count = 0;
  transition_count = 0;
  fault_count = 0;
  sensors_start = "";
  sensors_end = "";
  sensors_trace = "";
  actuators_json = "";
  source_kind = "derived";
  fault_type = "";
  fault_message = "";
}

abbrev pub a_cycle : Interval
a_cycle = record (new_interval "ORD-1" true 2000 "completed") {
  ended_ms = 4000;
  recipe_id = some 3;
  state_durations = a_span ∷ [];
}

abbrev pub no_title : String → ℕ → String
no_title state step = ""

-- A decoder that reads one text.
abbrev pub a_decoder : Decoder
a_decoder s =
    if is_text s (b'{' ∷ b'1' ∷ b'}' ∷ [])
    then some (("X0.10", true) ∷ ("X0.2", false) ∷ [])
    else none

abbrev pub a_firmware : Firmware
a_firmware = record {
  description = no_title;
  inputs = "X0.10" ∷ "X0.2" ∷ [];
  io = pins;
  decode = a_decoder;
}

abbrev pub one_cycle : Replica
one_cycle = record empty_replica {
  cycles = cycle_row 4000 a_cycle ∷ [];
  state_durations = span_row a_cycle a_span ∷ [];
  step_dwells = dwell_row a_firmware a_cycle (a_dwell 2800 4000 1) ∷ [];
  marks = ("cycles", 4000) ∷ [];
}

pub one_cycle-IsConsistent : IsConsistent one_cycle
unfolding new_interval cycle_row span_row dwell_row has_cycle has_fault lookup
one_cycle-IsConsistent = record {
  orders = (refl, tt);
  faults = tt;
  stamped = (omega arith, omega arith);
  spans_refer = (refl, tt);
  dwells_refer = (refl, tt);
  faults_refer = tt;
  toggles_refer = tt;
  doors_refer = tt;
  configs_refer = tt;
  pulses_refer = tt;
  runs_refer = tt;
  keys = tt;
}
