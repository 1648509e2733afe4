-- ===== src/Writer/Pulses.antt =====
-- `CycleContext`, `WriteActuatorInterval` and `AttributeActuatorPulses` of cmd/projector/writer.go: an
-- actuator's pulses, which are written on their own and then linked to the dwell they fell inside.
use canebot_projector_repo.Base.{
  ℕ, String, Bool, ◌&&◌, Option, none, some, List, [], ◌∷◌, ◌++◌, map, str_eq, leb, ltb,
  if◌then◌else◌,
}
use canebot_projector_repo.Rows.{OutActuatorInterval}
use canebot_projector_repo.Writer.Tables.{Cycle, DwellRow, ActuatorRow, Replica}
use canebot_projector_repo.Writer.Marks.{set_watermark, guard}
use canebot_projector_repo.Writer.Rows.{null_if_empty, date_utc}
use canebot_projector_repo.Writer.Flush.{has_cycle}

pub record CycleContext : Type 0 where
  pub recipe_id : Option ℕ
  pub is_production : Bool
  pub result : String
  pub started_at_ms : ℕ

-- The parent's attributes, or none where it has not been written.
unfoldable pub cycle_context : List Cycle → String → Option CycleContext
cycle_context [] order_key = none
cycle_context (c ∷ cs) order_key =
    let rest = cycle_context cs order_key in
    if str_eq c.order_id order_key
    then some (record {
      recipe_id = c.recipe_id;
      is_production = c.is_production;
      result = c.result;
      started_at_ms = c.started_at_ms;
    })
    else rest

unfoldable pub actuator_row : ℕ → OutActuatorInterval → CycleContext → ActuatorRow
actuator_row ts a context = record {
  event_ts = ts;
  pulse = a;
  recipe_id = context.recipe_id;
  is_production = context.is_production;
  cycle_result = null_if_empty context.result;
  seq_index = none;
  date_utc = date_utc a.started_at_ms;
}

-- None where the foreign key does not hold.
unfoldable pub write_actuator_interval :
    Replica → OutActuatorInterval → CycleContext → Option Replica
unfolding set_watermark guard has_cycle actuator_row
write_actuator_interval r a context =
    let ts = guard r.marks "actuator_intervals" a.ended_at_ms in
    if has_cycle r.cycles a.order_key
    then some (record r {
      actuator_intervals = r.actuator_intervals ++ actuator_row ts a context ∷ [];
      marks = set_watermark r.marks "actuator_intervals" ts;
    })
    else none

-- Whether the pulse began in the dwell, of the same order.
unfoldable pub fell_inside : OutActuatorInterval → DwellRow → Bool
fell_inside a d =
    str_eq d.dwell.order_key a.order_key
    && (leb d.dwell.started_at_ms a.started_at_ms && ltb a.started_at_ms d.dwell.ended_at_ms)

-- `ORDER BY d.started_at_ms LIMIT 1`, over the dwells that the pulse fell inside.
unfoldable pub earliest_dwell :
    OutActuatorInterval → Option DwellRow → List DwellRow → Option DwellRow
unfolding fell_inside
earliest_dwell a best [] = best
earliest_dwell a none (d ∷ ds) = earliest_dwell a (if fell_inside a d then some d else none) ds
earliest_dwell a (some b) (d ∷ ds) =
    earliest_dwell a
      (some (if fell_inside a d && ltb d.dwell.started_at_ms b.dwell.started_at_ms then d else b))
      ds

-- `seq_index` is set where it is null.
unfoldable pub attribute_pulse : List DwellRow → ActuatorRow → ActuatorRow
unfolding earliest_dwell
attribute_pulse dwells a = elim a.seq_index [
  | some seq ↦ a
  | none ↦ record a {
    seq_index = elim (earliest_dwell a.pulse none dwells) [
      | none ↦ none
      | some d ↦ some d.dwell.seq_index
    ];
  }
]

unfoldable pub attribute_actuator_pulses : Replica → Replica
unfolding attribute_pulse
attribute_actuator_pulses r = record r {
  actuator_intervals = map (attribute_pulse r.step_dwells) r.actuator_intervals;
}
