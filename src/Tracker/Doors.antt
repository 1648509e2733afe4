-- ===== src/Tracker/Doors.antt =====
-- Sensor toggles and door episodes: `ApplySensorToggle`, `applyDoorSignals` and `closeDoorEpisode`
-- of cmd/projector/tracker.go.
use canebot_projector_repo.Base.{
  ℕ, suc, ◌-◌, String, Bool, ◌&&◌, Option, none, some, [], ◌∷◌, ◌++◌, str_eq, ◌==◌, leb, ℤ, sub_ℕ,
  if◌then◌else◌,
}
use canebot_projector_repo.Rows.{SrcSensorToggle, OutSensorToggle, OutDoorEvent, unix_milli}
use canebot_projector_repo.Tracker.State.{OpenDoor, Interval, Tracker}
use canebot_projector_repo.Tracker.Ensure.{ensure_interval}

-- The two inputs of the controller's package canebot-fsm/io, which is not part of the repository.
pub record IoPins : Type 0 where
  pub main_door_switch : String
  pub cip_bypass_switch : String

unfoldable pub falls : SrcSensorToggle → Bool
falls s = s.value_from == 1 && s.value_to == 0

unfoldable pub rises : SrcSensorToggle → Bool
rises s = s.value_from == 0 && s.value_to == 1

unfoldable pub open_door : SrcSensorToggle → ℕ → OpenDoor
open_door s at_ms = record {
  opened_ms = at_ms;
  state_at_open = s.current_state;
  step_at_open = s.current_step;
  opened_in_error = str_eq s.current_state "Error";
  reset_count = 0;
  first_reset_ms = none;
  last_reset_ms = none;
}

unfoldable pub count_reset : OpenDoor → ℕ → OpenDoor
count_reset d at_ms = record d {
  reset_count = suc d.reset_count;
  first_reset_ms = elim d.first_reset_ms [ none ↦ some at_ms | some ms ↦ some ms ];
  last_reset_ms = some at_ms;
}

-- The difference is an integer: nothing in the code keeps the reset behind the opening.
unfoldable pub ms_to_first : OpenDoor → Option ℤ
ms_to_first d = elim d.first_reset_ms [ none ↦ none | some ms ↦ some (sub_ℕ ms d.opened_ms) ]

unfoldable pub door_event : String → OpenDoor → SrcSensorToggle → ℕ → OutDoorEvent
door_event order_key d s at_ms = record {
  opened_at_ms = d.opened_ms;
  closed_at_ms = at_ms;
  duration_ms = at_ms - d.opened_ms;
  order_key = order_key;
  fault_reset_count = d.reset_count;
  first_reset_at_ms = d.first_reset_ms;
  last_reset_at_ms = d.last_reset_ms;
  ms_to_first_reset = ms_to_first d;
  state_at_open = d.state_at_open;
  step_at_open = d.step_at_open;
  state_at_close = s.current_state;
  step_at_close = s.current_step;
  opened_in_error = d.opened_in_error;
}

unfoldable pub add_door_event : Interval → OutDoorEvent → Interval
add_door_event iv row = record iv { door_events = iv.door_events ++ row ∷ [] }

-- The episode is over in every case; it is emitted if it was open and took time.
unfoldable pub close_door_episode : Tracker → SrcSensorToggle → ℕ → Tracker
close_door_episode t s at_ms =
    let cleared = record t { open_door_episode = none } in
    elim t.open_door_episode [
      | none ↦ cleared
      | some d ↦ elim t.current [
        | none ↦ cleared
        | some iv ↦ if leb at_ms d.opened_ms then cleared else record cleared {
          current = some (add_door_event iv (door_event iv.order_key d s at_ms));
        }
      ]
    ]

unfoldable pub apply_door_switch : Tracker → SrcSensorToggle → ℕ → Tracker
apply_door_switch t s at_ms =
    if falls s
    then record t { open_door_episode = some (open_door s at_ms) }
    else if rises s
    then close_door_episode t s at_ms
    else t

unfoldable pub apply_reset_switch : Tracker → SrcSensorToggle → ℕ → Tracker
apply_reset_switch t s at_ms = elim t.open_door_episode [
  | none ↦ t
  | some d ↦ if rises s then record t { open_door_episode = some (count_reset d at_ms) } else t
]

unfoldable pub apply_door_signals : IoPins → Tracker → SrcSensorToggle → ℕ → Tracker
apply_door_signals io t s at_ms =
    if str_eq s.input_id io.main_door_switch
    then apply_door_switch t s at_ms
    else if str_eq s.input_id io.cip_bypass_switch
    then apply_reset_switch t s at_ms
    else t

unfoldable pub sensor_toggle : String → SrcSensorToggle → ℕ → OutSensorToggle
sensor_toggle order_key s at_ms = record {
  event_at_ms = at_ms;
  order_key = order_key;
  src_id = s.id;
  input_id = s.input_id;
  input_name = s.input_name;
  value_from = s.value_from;
  value_to = s.value_to;
  current_state = s.current_state;
  current_step = s.current_step;
}

unfoldable pub add_toggle : Interval → OutSensorToggle → Interval
add_toggle iv row = record iv { toggles = iv.toggles ++ row ∷ [] }

unfoldable pub record_toggle : Tracker → SrcSensorToggle → ℕ → Tracker
record_toggle t s at_ms = elim t.current [
  | none ↦ t
  | some iv ↦ record t { current = some (add_toggle iv (sensor_toggle iv.order_key s at_ms)) }
]

-- `ApplySensorToggle` behind `ensureInterval`.
unfoldable pub take_toggle : IoPins → Tracker → SrcSensorToggle → ℕ → Tracker
take_toggle io t s at_ms = elim t.current [
  | none ↦ t
  | some _ ↦ record_toggle (apply_door_signals io t s at_ms) s at_ms
]

unfoldable pub apply_sensor_toggle : IoPins → Tracker → SrcSensorToggle → Tracker
apply_sensor_toggle io t s =
    let at_ms = unix_milli s.ts in
    take_toggle io (ensure_interval t s.order_key s.current_state at_ms) s at_ms
