-- ===== src/Tracker/Inputs.antt =====
-- Orders, config changes, shutdown and hand-over: `ApplyOrder`, `ApplyConfigChange`, `FlushOpen` and
-- `PendingIntervals` of cmd/projector/tracker.go, and the dispatch over source rows in `tick` of
-- cmd/projector/main.go.
use canebot_projector_repo.Base.{
  ℕ, ◌+◌, String, Bool, none, some, List, [], ◌∷◌, ◌++◌, str_eq, leb, ltb, sort, if◌then◌else◌,
}
use canebot_projector_repo.Rows.{
  SrcOrder, SrcFsmEvent, SrcStepRun, SrcFault, SrcSensorToggle, StepRunActuator, OutConfigChange,
  unix_milli,
}
use canebot_projector_repo.Tracker.State.{Interval, Tracker}
use canebot_projector_repo.Tracker.Close.{close_interval}
use canebot_projector_repo.Tracker.Ensure.{ensure_interval, forced_result}
use canebot_projector_repo.Tracker.Events.{apply_fsm_event}
use canebot_projector_repo.Tracker.Faults.{apply_fault}
use canebot_projector_repo.Tracker.StepRuns.{apply_step_run}
use canebot_projector_repo.Tracker.Doors.{IoPins, apply_sensor_toggle}

unfoldable pub note_order : Interval → SrcOrder → Interval
note_order iv o = record iv { recipe_id = some o.recipe; glass_count = some o.quantity }

-- `ApplyOrder` behind `ensureInterval`.
unfoldable pub take_order : Tracker → SrcOrder → Tracker
take_order t o = elim t.current [
  | none ↦ t
  | some iv ↦
      if str_eq iv.order_key o.order_key then record t { current = some (note_order iv o) } else t
]

unfoldable pub apply_order : Tracker → SrcOrder → Tracker
apply_order t o = take_order (ensure_interval t o.order_key "AutoCycle" (unix_milli o.ts)) o

-- The state that `ApplyConfigChange` hands to `ensureInterval`: the result of a synthetic interval.
unfoldable pub config_state : Tracker → String
config_state t = elim t.current [ none ↦ "" | some iv ↦ if iv.is_production then "" else iv.result ]

unfoldable pub config_change : String → String → String → String → ℕ → OutConfigChange
config_change order_key key old_val new_val at_ms = record {
  changed_at_ms = at_ms;
  order_key = order_key;
  config_key = key;
  old_value = old_val;
  new_value = new_val;
}

unfoldable pub add_config : Interval → OutConfigChange → Interval
add_config iv row = record iv { configs = iv.configs ++ row ∷ [] }

-- `ApplyConfigChange` behind `ensureInterval`.
unfoldable pub take_config_change : Tracker → String → String → String → ℕ → Tracker
take_config_change t key old_val new_val at_ms = elim t.current [
  | none ↦ t
  | some iv ↦ record t {
    current = some (add_config iv (config_change iv.order_key key old_val new_val at_ms));
  }
]

-- `at` is a time in nanoseconds.
unfoldable pub apply_config_change : Tracker → String → String → String → ℕ → Tracker
apply_config_change t key old_val new_val at =
    let at_ms = unix_milli at in
    take_config_change (ensure_interval t "" (config_state t) at_ms) key old_val new_val at_ms

-- The time at which `FlushOpen` closes: behind the start at least.
unfoldable pub flush_time : Interval → ℕ → ℕ
flush_time iv at_ms = if leb at_ms iv.started_ms then iv.started_ms + 1 else at_ms

unfoldable pub flush_open : Tracker → ℕ → Tracker
flush_open t at_ms = elim t.current [
  | none ↦ t
  | some iv ↦ close_interval t (flush_time iv at_ms) (forced_result iv)
]

unfoldable pub ends_before : Interval → Interval → Bool
ends_before a b = ltb a.ended_ms b.ended_ms

unfoldable pub pending_intervals : Tracker → Tracker × List Interval
pending_intervals t = (record t { closed = [] }, sort ends_before t.closed)

-- One call of the tracker. A step run comes with its actuators, which `tick` decodes from JSON.
pub data Input : Type 0 where
  order : SrcOrder → Input
  event : SrcFsmEvent → Input
  step_run : SrcStepRun → List (String × StepRunActuator) → Input
  fault : SrcFault → Input
  toggle : SrcSensorToggle → Input
  config : String → String → String → ℕ → Input
  flush : ℕ → Input

unfoldable pub apply : IoPins → Tracker → Input → Tracker
apply io t (order o) = apply_order t o
apply io t (event e) = apply_fsm_event t e
apply io t (step_run sr actuators) = apply_step_run t sr actuators
apply io t (fault f) = apply_fault t f
apply io t (toggle s) = apply_sensor_toggle io t s
apply io t (config key old_val new_val at) = apply_config_change t key old_val new_val at
apply io t (flush at_ms) = flush_open t at_ms

unfoldable pub run : IoPins → Tracker → List Input → Tracker
run io t [] = t
run io t (i ∷ is) = run io (apply io t i) is
