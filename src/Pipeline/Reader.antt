-- ===== src/Pipeline/Reader.antt =====
-- The source of cmd/projector/reader.go: its tables, in the order of ids, and the batched reads of
-- `OrdersAfter`, `FSMEventsAfter`, `FaultsAfter`, `SensorTogglesAfter` and `StepRunsAfter`.
use canebot_projector_repo.Base.{
  ℕ, String, Option, none, some, List, [], ◌∷◌, filter, ltb, str_eq, if◌then◌else◌,
}
use canebot_projector_repo.Rows.{
  SrcOrder, SrcFsmEvent, SrcFault, SrcSensorToggle, SrcStepRun, SrcActuatorInterval,
  StepRunActuator,
}
use canebot_projector_repo.Tracker.Inputs.{order, event, step_run, fault, toggle}
use canebot_projector_repo.Pipeline.Actuators.{take}
use canebot_projector_repo.Pipeline.Merge.{TimelineItem}

-- A row of a source table: `row` is what is made of it, or none where its timestamp cannot be parsed.
pub record SourceRow {ℓ} (A : Type ℓ) : Type ℓ where
  pub id : ℕ
  pub row : Option A

-- A read that fails is none. A closed row of the outputs is none where its times cannot
-- be parsed.
pub record Source : Type 0 where
  pub orders : Option (List (SourceRow SrcOrder))
  pub fsm_events : Option (List (SourceRow SrcFsmEvent))
  pub faults : Option (List (SourceRow SrcFault))
  pub sensor_input_toggles : Option (List (SourceRow SrcSensorToggle))
  pub fsm_step_runs : Option (List (SourceRow SrcStepRun))
  pub config : Option (List (String × String))
  pub actuator_output_intervals : Option (List (Option SrcActuatorInterval))

module _ {ℓ} {A : Type ℓ} where
  -- The loop over the result of the query: a row that cannot be parsed is skipped.
  unfoldable pub parsed_rows : List (SourceRow A) → List A
  parsed_rows [] = []
  parsed_rows (x ∷ xs) = elim x.row [ none ↦ parsed_rows xs | some a ↦ a ∷ parsed_rows xs ]

  -- `WHERE id > ? ORDER BY id LIMIT ?`
  unfoldable pub query_after : ℕ → ℕ → List (SourceRow A) → List (SourceRow A)
  unfolding take
  query_after batch_size after_id table =
      take batch_size (filter (λ (x : SourceRow A). ltb after_id x.id) table)

  unfoldable pub rows_after : ℕ → ℕ → List (SourceRow A) → List A
  unfolding parsed_rows query_after
  rows_after batch_size after_id table = parsed_rows (query_after batch_size after_id table)

-- `fsm_step_runs` where the fault columns are not there: they are read as empty.
unfoldable pub without_faults : SrcStepRun → SrcStepRun
without_faults sr = record sr { fault_type = ""; fault_message = "" }

-- The items that `collect` makes of the rows.
unfoldable pub order_item : SrcOrder → TimelineItem
order_item o = record { at = o.ts; kind = 0; src_id = o.id; input = order o }

unfoldable pub event_item : SrcFsmEvent → TimelineItem
event_item e = record { at = e.ts; kind = 1; src_id = e.id; input = event e }

-- What `tick` decodes of a step run's blob, where `decode` is what `json.Unmarshal` leaves in the map.
unfoldable pub decode_actuators :
    (String → List (String × StepRunActuator)) → String → List (String × StepRunActuator)
decode_actuators decode s = if str_eq s "" then [] else if str_eq s "{}" then [] else decode s

-- At its end, for that is when the step became a fact.
unfoldable pub step_run_item :
    (String → List (String × StepRunActuator)) → SrcStepRun → TimelineItem
unfolding decode_actuators
step_run_item decode sr = record {
  at = sr.ended;
  kind = 2;
  src_id = sr.id;
  input = step_run sr (decode_actuators decode sr.actuators_json);
}

unfoldable pub fault_item : SrcFault → TimelineItem
fault_item f = record { at = f.ts; kind = 3; src_id = f.id; input = fault f }

unfoldable pub toggle_item : SrcSensorToggle → TimelineItem
toggle_item s = record { at = s.ts; kind = 4; src_id = s.id; input = toggle s }
