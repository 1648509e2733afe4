-- ===== src/Tracker/Events.antt =====
-- FSM events: `ApplyFSMEvent`, `trackStateSpan`, `trackDwell` and `sameDwell` of
-- cmd/projector/tracker.go.
use canebot_projector_repo.Base.{
  ℕ, suc, ◌+◌, String, Bool, true, false, ◌&&◌, ◌||◌, Option, none, some, [], ◌∷◌, ◌++◌, str_eq,
  ◌==◌, if◌then◌else◌, lookup, lookup_or, insert, add,
}
use canebot_projector_repo.Rows.{SrcFsmEvent, OutFsmEvent, unix_milli}
use canebot_projector_repo.Labels.{lane_for_state, auto_cycle_complete_step}
use canebot_projector_repo.Tracker.State.{OpenStateSpan, OpenDwell, Interval, Tracker}
use canebot_projector_repo.Tracker.Close.{close_state_span_at, close_dwell, close_interval}
use canebot_projector_repo.Tracker.Ensure.{ensure_interval}

unfoldable pub open_span : SrcFsmEvent → ℕ → OpenStateSpan
open_span e at_ms = record {
  state = e.current_state;
  entered_ms = at_ms;
  entry_reason = e.event_kind;
}

-- The states whose rows describe a parallel lane, and the missing state.
unfoldable pub has_no_main_state : String → Bool
has_no_main_state state = str_eq state "" || str_eq state "Tilter" || str_eq state "Crusher"

unfoldable pub track_state_span : Tracker → SrcFsmEvent → ℕ → Tracker
track_state_span t e at_ms = if has_no_main_state e.current_state then t else elim t.open_state [
  | none ↦ record t { open_state = some (open_span e at_ms) }
  | some s ↦
      if str_eq s.state e.current_state
      then t
      else record (close_state_span_at t at_ms e.event_kind) {
        open_state = some (open_span e at_ms);
      }
]

unfoldable pub same_step : Option ℕ → Option ℕ → Bool
same_step none none = true
same_step none (some b) = false
same_step (some a) none = false
same_step (some a) (some b) = a == b

unfoldable pub same_dwell : OpenDwell → String → Option ℕ → Bool
same_dwell d state step = str_eq d.state state && same_step d.step step

-- `e.StepTo`, or `e.StepFrom` where there is none.
unfoldable pub event_step : SrcFsmEvent → Option ℕ
event_step e = elim e.step_to [ none ↦ e.step_from | some s ↦ some s ]

abbrev pub one_if : Bool → ℕ
one_if b = if b then 1 else 0

-- The open dwell with one more event counted.
unfoldable pub count_event : OpenDwell → SrcFsmEvent → OpenDwell
count_event d e = record d {
  events = suc d.events;
  io_events = d.io_events + one_if (str_eq e.event_kind "input_changed");
  transition = d.transition + one_if (str_eq e.event_kind "state_transition");
}

unfoldable pub new_dwell : SrcFsmEvent → ℕ → ℕ → OpenDwell
new_dwell e at_ms seq = record {
  lane = lane_for_state e.current_state;
  state = e.current_state;
  step = event_step e;
  started_ms = at_ms;
  seq_index = seq;
  events = 1;
  io_events = one_if (str_eq e.event_kind "input_changed");
  transition = one_if (str_eq e.event_kind "state_transition");
  faults = 0;
}

-- Closes the lane's dwell and opens the next one.
unfoldable pub next_dwell : Tracker → SrcFsmEvent → ℕ → Tracker
next_dwell t e at_ms =
    let lane = lane_for_state e.current_state in
    let t' = close_dwell t lane at_ms in
    let seq = lookup_or 0 lane t'.dwell_seq in
    record t' {
      dwell_seq = insert lane (suc seq) t'.dwell_seq;
      open_dwells = insert lane (new_dwell e at_ms seq) t'.open_dwells;
    }

-- The dwell that is open in the lane counts the event, and goes on where state and step are its own.
unfoldable pub track_open_dwell : Tracker → OpenDwell → SrcFsmEvent → ℕ → Tracker
track_open_dwell t d e at_ms =
    let counted = record t {
      open_dwells = insert (lane_for_state e.current_state) (count_event d e) t.open_dwells;
    } in
    if same_dwell d e.current_state (event_step e) then counted else next_dwell counted e at_ms

unfoldable pub track_dwell : Tracker → SrcFsmEvent → ℕ → Tracker
track_dwell t e at_ms = elim t.current [
  | none ↦ t
  | some _ ↦ elim (lookup (lane_for_state e.current_state) t.open_dwells) [
    | none ↦ next_dwell t e at_ms
    | some d ↦ track_open_dwell t d e at_ms
  ]
]

-- The counters and the last state and step that `ApplyFSMEvent` notes on the interval.
unfoldable pub note_event : Interval → SrcFsmEvent → Interval
note_event iv e = record iv {
  fsm_event_count = suc iv.fsm_event_count;
  unique_states =
      if str_eq e.current_state "" then iv.unique_states else add e.current_state iv.unique_states;
  terminal_state = if str_eq e.current_state "" then iv.terminal_state else e.current_state;
  terminal_step = elim e.step_to [ none ↦ iv.terminal_step | some s ↦ some s ];
  state_transition_count =
      iv.state_transition_count + one_if (str_eq e.event_kind "state_transition");
  step_event_count = iv.step_event_count + one_if (str_eq e.event_kind "step_changed");
}

unfoldable pub fsm_event : String → SrcFsmEvent → ℕ → OutFsmEvent
fsm_event order_key e at_ms = record {
  event_at_ms = at_ms;
  order_key = order_key;
  src_id = e.id;
  event_kind = e.event_kind;
  state_from = e.state_from;
  state_to = e.state_to;
  current_state = e.current_state;
  step_from = e.step_from;
  step_to = e.step_to;
  modbus_order_reg = e.modbus_order_reg;
  input_id = e.input_id;
  input_value = e.input_value;
  event_type = e.event_type;
  source = e.source;
  trace_id = e.trace_id;
  payload_json = e.payload_json;
  sensors_json = e.sensors_json;
}

unfoldable pub add_event : Interval → OutFsmEvent → Interval
add_event iv row = record iv { events = iv.events ++ row ∷ [] }

-- `e.StepTo != nil && *e.StepTo == autoCycleCompleteStep`
unfoldable pub is_complete_step : Option ℕ → Bool
is_complete_step none = false
is_complete_step (some s) = s == auto_cycle_complete_step

-- Appends the event, and closes a production interval at the completion marker.
unfoldable pub record_event : Tracker → SrcFsmEvent → ℕ → Tracker
record_event t e at_ms = elim t.current [
  | none ↦ t
  | some iv ↦
      let t' = record t { current = some (add_event iv (fsm_event iv.order_key e at_ms)) } in
      if iv.is_production && (str_eq e.current_state "AutoCycle" && is_complete_step e.step_to)
      then close_interval t' at_ms "completed"
      else t'
]

-- `ApplyFSMEvent` behind `ensureInterval`.
unfoldable pub take_event : Tracker → SrcFsmEvent → ℕ → Tracker
take_event t e at_ms = elim t.current [
  | none ↦ t
  | some iv ↦
      let spanned = track_state_span (record t { current = some (note_event iv e) }) e at_ms in
      record_event (if spanned.use_step_runs then spanned else track_dwell spanned e at_ms) e at_ms
]

unfoldable pub apply_fsm_event : Tracker → SrcFsmEvent → Tracker
apply_fsm_event t e =
    let at_ms = unix_milli e.ts in
    take_event (ensure_interval t e.order_key e.current_state at_ms) e at_ms
