-- ===== src/Tracker/State.antt =====
-- The tracker's state (cmd/projector/tracker.go): the open interval with the rows buffered in it,
-- open spans, dwells and door episodes, and the queue of closed intervals. A pointer to the open
-- interval is the field `current`, which each step writes back. `openFaults` and `lateActuators`,
-- which no code reads or writes after their creation, are left out.
use canebot_projector_repo.Base.{ℕ, String, Bool, Option, none, List, []}
use canebot_projector_repo.Rows.{
  OutFsmEvent, OutStateDuration, OutStepDwell, OutStepActuator, OutFaultEvent, OutSensorToggle,
  OutConfigChange, OutDoorEvent,
}

pub record OpenStateSpan : Type 0 where
  pub state : String
  pub entered_ms : ℕ
  pub entry_reason : String

pub record OpenDwell : Type 0 where
  pub lane : String
  pub state : String
  pub step : Option ℕ
  pub started_ms : ℕ
  pub seq_index : ℕ
  pub events : ℕ
  pub io_events : ℕ
  pub transition : ℕ
  pub faults : ℕ

pub record LedgerFault : Type 0 where
  pub fault_type : String
  pub at_ms : ℕ

pub record OpenDoor : Type 0 where
  pub opened_ms : ℕ
  pub state_at_open : String
  pub step_at_open : Option ℕ
  pub opened_in_error : Bool
  pub reset_count : ℕ
  pub first_reset_ms : Option ℕ
  pub last_reset_ms : Option ℕ

pub record Interval : Type 0 where
  pub order_key : String
  pub is_production : Bool
  pub started_ms : ℕ
  pub ended_ms : ℕ
  pub result : String
  pub recipe_id : Option ℕ
  pub glass_count : Option ℕ
  pub terminal_state : String
  pub terminal_step : Option ℕ
  pub fault_count : ℕ
  pub dominant_fault_type : String
  pub fault_type_counts : List (String × ℕ)
  pub first_fault_ms : Option ℕ
  pub last_fault_ms : Option ℕ
  pub fsm_event_count : ℕ
  pub step_event_count : ℕ
  pub state_transition_count : ℕ
  pub unique_states : List String
  pub events : List OutFsmEvent
  pub state_durations : List OutStateDuration
  pub step_dwells : List OutStepDwell
  pub step_actuators : List OutStepActuator
  pub faults : List OutFaultEvent
  pub toggles : List OutSensorToggle
  pub configs : List OutConfigChange
  pub door_events : List OutDoorEvent

unfoldable pub new_interval : String → Bool → ℕ → String → Interval
new_interval order_key is_production started_ms result = record {
  order_key = order_key;
  is_production = is_production;
  started_ms = started_ms;
  ended_ms = 0;
  result = result;
  recipe_id = none;
  glass_count = none;
  terminal_state = "";
  terminal_step = none;
  fault_count = 0;
  dominant_fault_type = "";
  fault_type_counts = [];
  first_fault_ms = none;
  last_fault_ms = none;
  fsm_event_count = 0;
  step_event_count = 0;
  state_transition_count = 0;
  unique_states = [];
  events = [];
  state_durations = [];
  step_dwells = [];
  step_actuators = [];
  faults = [];
  toggles = [];
  configs = [];
  door_events = [];
}

pub record Tracker : Type 0 where
  pub severity : String → String
  pub use_step_runs : Bool
  pub step_run_faults : Bool
  pub ledger_faults : List LedgerFault
  pub current : Option Interval
  pub open_state : Option OpenStateSpan
  pub open_dwells : List (String × OpenDwell)
  pub open_door_episode : Option OpenDoor
  pub dwell_seq : List (String × ℕ)
  pub closed : List Interval
  pub synth_counter : ℕ

-- `newTracker`, with the two flags that `run` sets from the source's schema.
unfoldable pub new_tracker : (String → String) → Bool → Bool → Tracker
new_tracker severity use_step_runs step_run_faults = record {
  severity = severity;
  use_step_runs = use_step_runs;
  step_run_faults = step_run_faults;
  ledger_faults = [];
  current = none;
  open_state = none;
  open_dwells = [];
  open_door_episode = none;
  dwell_seq = [];
  closed = [];
  synth_counter = 0;
}
