-- ===== src/Tracker/Scenarios.antt =====
-- Runs of the tracker on small streams of rows.
use canebot_projector_repo.Base.{ℕ, ◌*◌, String, false, none, some, List, [], ◌∷◌, map, ◌≡◌, refl}
use canebot_projector_repo.Rows.{SrcFsmEvent, SrcFault}
use canebot_projector_repo.Labels.{severity_for}
use canebot_projector_repo.Tracker.State.{Interval, new_tracker}
use canebot_projector_repo.Tracker.Code.{tracker_code}
use canebot_projector_repo.Tracker.Doors.{IoPins}
use canebot_projector_repo.Tracker.Inputs.{Input, order, event, flush, run}

abbrev pub pins : IoPins
pins = record { main_door_switch = "X0.0"; cip_bypass_switch = "X0.7" }

abbrev pub an_event : String → String → ℕ → ℕ → SrcFsmEvent
an_event order_key state step at_ms = record {
  id = 1;
  ts = at_ms * 1000000;
  event_kind = "step_changed";
  state_from = "";
  state_to = "";
  current_state = state;
  step_from = none;
  step_to = some step;
  modbus_order_reg = none;
  input_id = "";
  input_value = none;
  event_type = "";
  payload_json = "";
  source = "";
  trace_id = "";
  order_key = order_key;
  sensors_json = "";
}

abbrev pub a_fault : String → String → ℕ → SrcFault
a_fault order_key fault_type at_ms = record {
  id = 7;
  ts = at_ms * 1000000;
  state = "AutoCycle";
  step = 10;
  fault_type = fault_type;
  message = "";
  order_key = order_key;
}

abbrev pub a_drink : List Input
a_drink =
    event (an_event "" "HomeIdle" 0 1000)
    ∷ order (record { id = 1; order_key = "ORD-1"; recipe = 3; quantity = 2; ts = 2000000000 })
    ∷ event (an_event "ORD-1" "AutoCycle" 1 2000)
    ∷ event (an_event "ORD-1" "AutoCycle" 2 2500)
    ∷ event (an_event "ORD-1" "AutoCycle" 19 4000)
    ∷ event (an_event "" "HomeIdle" 0 5000)
    ∷ flush 6000
    ∷ []

abbrev summary : Interval → String × String × ℕ × ℕ
summary iv = (iv.order_key, iv.result, iv.started_ms, iv.ended_ms)

drink_summary :
    map summary (run pins (new_tracker severity_for false false) a_drink).closed
    ≡ ("IDLE-10000001", "idle", 1000, 2000)
      ∷ ("ORD-1", "completed", 2000, 4000)
      ∷ ("IDLE-50000002", "idle", 5000, 6000)
      ∷ []
unfolding tracker_code
drink_summary = refl
