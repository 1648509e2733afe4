-- ===== src/Tracker/StepRuns.antt =====
-- Step runs: `ApplyStepRun` of cmd/projector/tracker.go.
use canebot_projector_repo.Base.{
  ℕ, zero, suc, String, Bool, true, false, not, ◌&&◌, Option, none, some, List, [], ◌∷◌, ◌++◌,
  str_eq, ◌==◌, leb, if◌then◌else◌, lookup, lookup_or, insert, keys, sort_strings, length, ℤ, pos,
  negsuc, ◌-◌,
}
use canebot_projector_repo.Rows.{
  SrcStepRun, StepRunActuator, Segment, OutStepDwell, OutStepActuator, unix_milli,
}
use canebot_projector_repo.Labels.{lane_for_state, emits_dwell, auto_cycle_complete_step}
use canebot_projector_repo.Tracker.State.{Interval, Tracker}
use canebot_projector_repo.Tracker.Close.{add_step_dwell, close_interval}
use canebot_projector_repo.Tracker.Ensure.{ensure_interval}
use canebot_projector_repo.Tracker.Faults.{apply_step_run_fault}

unfoldable pub step_run_dwell : String → SrcStepRun → ℕ → ℕ → ℕ → OutStepDwell
step_run_dwell order_key sr start_ms end_ms seq = record {
  started_at_ms = start_ms;
  ended_at_ms = end_ms;
  duration_ms = end_ms - start_ms;
  order_key = order_key;
  lane = lane_for_state sr.current_state;
  state = sr.current_state;
  step = some sr.step;
  seq_index = seq;
  previous_state = sr.previous_state;
  previous_step = sr.previous_step;
  event_count = 0;
  io_event_count = 0;
  transition_count = 0;
  fault_count = if str_eq sr.fault_type "" then 0 else 1;
  sensors_start = sr.sensors_start;
  sensors_end = sr.sensors_end;
  sensors_trace = sr.sensors_trace;
  actuators_json = sr.actuators_json;
  source_kind = "step_runs";
  fault_type = sr.fault_type;
  fault_message = sr.fault_message;
}

abbrev pub first_recipe_step : List Segment → Option ℕ
first_recipe_step [] = none
first_recipe_step (s ∷ _) = s.recipe_step

abbrev pub first_origin_state : List Segment → String
first_origin_state [] = ""
first_origin_state (s ∷ _) = s.recipe_origin_state

unfoldable pub step_actuator :
    String → SrcStepRun → ℕ → ℕ → ℕ → String → StepRunActuator → OutStepActuator
step_actuator order_key sr start_ms end_ms seq output_id a = record {
  step_started_at_ms = start_ms;
  step_ended_at_ms = end_ms;
  order_key = order_key;
  lane = lane_for_state sr.current_state;
  state = sr.current_state;
  step = some sr.step;
  seq_index = seq;
  output_id = output_id;
  output_name = a.name;
  total_run_ms = a.total_run_ms;
  segment_count = length a.segments;
  recipe_step = first_recipe_step a.segments;
  recipe_origin_state = first_origin_state a.segments;
}

abbrev pub is_positive : ℤ → Bool
is_positive (pos zero) = false
is_positive (pos (suc n)) = true
is_positive (negsuc n) = false

-- One row for each output that ran, in the order of the outputs' ids. A map yields no value at an
-- id that it lacks, and its zero value would be skipped.
unfoldable pub actuator_rows :
    (String → StepRunActuator → OutStepActuator)
    → List (String × StepRunActuator)
    → List String
    → List OutStepActuator
actuator_rows row actuators [] = []
actuator_rows row actuators (id ∷ ids) =
    let rest = actuator_rows row actuators ids in
    elim (lookup id actuators) [
      | none ↦ rest
      | some a ↦ if is_positive a.total_run_ms then row id a ∷ rest else rest
    ]

unfoldable pub add_step_actuators : Interval → List OutStepActuator → Interval
add_step_actuators iv rows = record iv { step_actuators = iv.step_actuators ++ rows }

-- The dwell and the actuator rows of a step run.
unfoldable pub add_step_run :
    Interval → SrcStepRun → List (String × StepRunActuator) → ℕ → ℕ → ℕ → Interval
add_step_run iv sr actuators start_ms end_ms seq =
    add_step_actuators (add_step_dwell iv (step_run_dwell iv.order_key sr start_ms end_ms seq)) (
      actuator_rows (step_actuator iv.order_key sr start_ms end_ms seq) actuators
        (sort_strings (keys actuators)))

unfoldable pub is_completion : SrcStepRun → Bool
is_completion sr = str_eq sr.current_state "AutoCycle" && sr.step == auto_cycle_complete_step

-- The completion marker, where no fault has closed the interval.
unfoldable pub close_completed : Tracker → SrcStepRun → ℕ → Tracker
close_completed t sr end_ms = elim t.current [
  | none ↦ t
  | some iv ↦
      if iv.is_production && is_completion sr then close_interval t end_ms "completed" else t
]

-- `closed` says whether the step run's fault has closed the interval.
unfoldable pub after_step_run_fault : Tracker × Bool → SrcStepRun → ℕ → Tracker
after_step_run_fault (t, closed) sr end_ms = if closed then t else close_completed t sr end_ms

-- The lane's sequence counter moves on from `seq`.
unfoldable pub advance_seq : Tracker → String → ℕ → Tracker
advance_seq t lane seq = record t { dwell_seq = insert lane (suc seq) t.dwell_seq }

-- `ApplyStepRun` behind `ensureInterval`.
unfoldable pub take_step_run :
    Tracker → SrcStepRun → List (String × StepRunActuator) → ℕ → ℕ → Tracker
take_step_run t sr actuators start_ms end_ms = elim t.current [
  | none ↦ t
  | some iv ↦
      if leb end_ms start_ms
      then t
      else (let lane = lane_for_state sr.current_state in
          let seq = lookup_or 0 lane t.dwell_seq in
          let counted = advance_seq t lane seq in
          let added = record counted {
            current = some (add_step_run iv sr actuators start_ms end_ms seq);
          } in
          if not (emits_dwell sr.current_state iv.is_production)
          then counted
          else after_step_run_fault (apply_step_run_fault added sr start_ms end_ms seq) sr end_ms)
]

unfoldable pub apply_step_run : Tracker → SrcStepRun → List (String × StepRunActuator) → Tracker
apply_step_run t sr actuators =
    let start_ms = unix_milli sr.started in
    take_step_run (ensure_interval t sr.order_key sr.current_state start_ms) sr actuators start_ms
      (unix_milli sr.ended)
