-- ===== src/Tracker/Close.antt =====
-- Closing spans, dwells and intervals: `closeStateSpanAt`, `closeDwell`, `closeOpenDwells`,
-- `dominantKey` and `closeInterval` of cmd/projector/tracker.go.
use canebot_projector_repo.Base.{
  ℕ, ◌-◌, String, not, none, some, List, [], ◌∷◌, ◌++◌, str_eq, leb, ltb, if◌then◌else◌, lookup,
  lookup_or, delete, keys, sort_strings,
}
use canebot_projector_repo.Rows.{OutStateDuration, OutStepDwell}
use canebot_projector_repo.Labels.{emits_dwell}
use canebot_projector_repo.Tracker.State.{OpenStateSpan, OpenDwell, Interval, Tracker}

-- The row of a span that ends at `at_ms`.
unfoldable pub state_duration : String → OpenStateSpan → ℕ → String → OutStateDuration
state_duration order_key s at_ms reason = record {
  entered_at_ms = s.entered_ms;
  exited_at_ms = at_ms;
  duration_ms = at_ms - s.entered_ms;
  order_key = order_key;
  state = s.state;
  entry_reason = s.entry_reason;
  exit_reason = reason;
}

unfoldable pub add_state_duration : Interval → OutStateDuration → Interval
add_state_duration iv row = record iv { state_durations = iv.state_durations ++ row ∷ [] }

unfoldable pub close_state_span_at : Tracker → ℕ → String → Tracker
close_state_span_at t at_ms reason = elim t.open_state [
  | none ↦ t
  | some s ↦ elim t.current [
    | none ↦ t
    | some iv ↦ if leb at_ms s.entered_ms then t else record t {
      current = some (add_state_duration iv (state_duration iv.order_key s at_ms reason));
      open_state = none;
    }
  ]
]

unfoldable pub close_open_state_span : Tracker → ℕ → String → Tracker
close_open_state_span t at_ms reason = close_state_span_at t at_ms reason

-- The row of a dwell that ends at `at_ms`.
unfoldable pub step_dwell : String → OpenDwell → ℕ → OutStepDwell
step_dwell order_key d at_ms = record {
  started_at_ms = d.started_ms;
  ended_at_ms = at_ms;
  duration_ms = at_ms - d.started_ms;
  order_key = order_key;
  lane = d.lane;
  state = d.state;
  step = d.step;
  seq_index = d.seq_index;
  previous_state = "";
  previous_step = none;
  event_count = d.events;
  io_event_count = d.io_events;
  transition_count = d.transition;
  fault_count = d.faults;
  sensors_start = "";
  sensors_end = "";
  sensors_trace = "";
  actuators_json = "";
  source_kind = "derived";
  fault_type = "";
  fault_message = "";
}

unfoldable pub add_step_dwell : Interval → OutStepDwell → Interval
add_step_dwell iv row = record iv { step_dwells = iv.step_dwells ++ row ∷ [] }

-- What `closeDwell` does to the open interval, once the dwell is out of the map.
unfoldable pub emit_dwell : Interval → OpenDwell → ℕ → Interval
emit_dwell iv d at_ms =
    if leb at_ms d.started_ms
    then iv
    else if not (emits_dwell d.state iv.is_production)
    then iv
    else add_step_dwell iv (step_dwell iv.order_key d at_ms)

unfoldable pub close_dwell : Tracker → String → ℕ → Tracker
close_dwell t lane at_ms = elim (lookup lane t.open_dwells) [
  | none ↦ t
  | some d ↦ elim t.current [
    | none ↦ t
    | some iv ↦ record t {
      open_dwells = delete lane t.open_dwells;
      current = some (emit_dwell iv d at_ms);
    }
  ]
]

unfoldable pub close_dwells : Tracker → List String → ℕ → Tracker
close_dwells t [] at_ms = t
close_dwells t (lane ∷ lanes) at_ms = close_dwells (close_dwell t lane at_ms) lanes at_ms

unfoldable pub close_open_dwells : Tracker → ℕ → Tracker
close_open_dwells t at_ms = close_dwells t (sort_strings (keys t.open_dwells)) at_ms

-- The loop of `dominantKey`, with the best key so far and its count.
unfoldable pub dominant_from : List (String × ℕ) → List String → String → ℕ → String
dominant_from counts [] best best_n = best
dominant_from counts (k ∷ ks) best best_n =
    let n = lookup_or 0 k counts in
    dominant_from counts ks (if ltb best_n n then k else best) (if ltb best_n n then n else best_n)

unfoldable pub dominant_key : List (String × ℕ) → String
dominant_key counts = dominant_from counts (sort_strings (keys counts)) "" 0

-- The fields that closing gives an interval.
unfoldable pub finish : Interval → ℕ → String → Interval
finish iv at_ms forced_result = record iv {
  ended_ms = at_ms;
  result = if str_eq forced_result "" then iv.result else forced_result;
}

-- `closeInterval` behind the closing of dwells and the span. The interval is still there, so the
-- first case does not arise.
unfoldable pub queue_interval : Tracker → ℕ → String → Tracker
queue_interval t at_ms forced_result = elim t.current [
  | none ↦ t
  | some iv ↦ if leb at_ms iv.started_ms then record t { current = none } else record t {
    current = none;
    closed =
        t.closed
        ++ record (finish iv at_ms forced_result) {
          dominant_fault_type = dominant_key iv.fault_type_counts;
        }
          ∷ [];
  }
]

unfoldable pub close_interval : Tracker → ℕ → String → Tracker
close_interval t at_ms forced_result = elim t.current [
  | none ↦ t
  | some _ ↦
      queue_interval (close_open_state_span (close_open_dwells t at_ms) at_ms "interval_end") at_ms
        forced_result
]
