-- ===== src/Examples/OfWriter.antt =====
-- The theorems on cmd/projector/writer.go, for the cycle of an order.
use canebot_projector_repo.Base.{
  ℕ, ◌≡◌, ◌⊎◌, refl, true, Option, none, some, List, [], ◌∷◌, arith, lookup, sort_strings,
}
use canebot_projector_repo.Labels.{severity_for}
use canebot_projector_repo.Tracker.State.{new_interval}
use canebot_projector_repo.Tracker.Close.{dominant_from, dominant_key}
use canebot_projector_repo.Tracker.Invariant.Defs.{
  fits, count_type, first_raised, last_raised, IsClosed,
}
use canebot_projector_repo.Examples.Replicas.{
  a_dwell, a_cycle, a_firmware, one_cycle, one_cycle-IsConsistent,
}
use canebot_projector_repo.Writer.Tables.{DwellRow, ActuatorRow, Replica, empty_replica}
use canebot_projector_repo.Writer.Rows.{dwell_row}
use canebot_projector_repo.Writer.Pulses.{fell_inside, earliest_dwell, attribute_pulse}
use canebot_projector_repo.Writer.Pruning.{prune}
use canebot_projector_repo.Writer.Upkeep.{prune-IsConsistent}
use canebot_projector_repo.Writer.Attribution.{IsEarliest, seq_of, attribute_pulse_lem}
use canebot_projector_repo.Writer.Flush.{flush_interval, begin_flush, flush_marks}
use canebot_projector_repo.Writer.Watermarks.{mark, IsStamped, flush-IsStamped}
use canebot_projector_repo.Writer.Consistency.{IsConsistent, empty_replica-IsConsistent}
use canebot_projector_repo.Writer.References.{IsWritten, flush_interval-IsConsistent}

a_cycle-IsClosed : IsClosed severity_for a_cycle
unfolding new_interval fits count_type first_raised last_raised dominant_from dominant_key lookup
    sort_strings
a_cycle-IsClosed = record {
  was_open = record {
    result_fits = refl;
    spans = ((refl, omega arith, refl), tt);
    dwells = tt;
    actuators = tt;
    fault_rows = tt;
    event_rows = tt;
    toggle_rows = tt;
    config_rows = tt;
    doors = tt;
    event_count = refl;
    fault_count = refl;
    tallies = λ k. refl;
    first_fault = refl;
    last_fault = refl;
  };
  not_empty = omega arith;
  dominant = refl;
}

flush_interval-IsConsistent_example :
    (out : Replica) × (flush_interval a_firmware empty_replica a_cycle ≡ some out)
    × IsConsistent out
    × IsWritten a_firmware empty_replica a_cycle out
flush_interval-IsConsistent_example =
    flush_interval-IsConsistent severity_for a_firmware empty_replica a_cycle a_cycle-IsClosed
      empty_replica-IsConsistent

flush-IsStamped_example :
    IsStamped 0
      (begin_flush a_cycle empty_replica).cycles
      (mark "cycles" (flush_marks a_cycle empty_replica.marks))
flush-IsStamped_example = flush-IsStamped a_cycle empty_replica (omega arith)

abbrev a_pulse : ActuatorRow
a_pulse = record {
  event_ts = 3500;
  pulse = record {
    started_at_ms = 3000;
    ended_at_ms = 3500;
    duration_ms = 500;
    order_key = "ORD-1";
    src_id = 1;
    revision = 0;
    output_id = "Y0.1";
    output_name = "pump";
    started_state = "AutoCycle";
    started_step = some 3;
    started_send_ok = none;
    ended_state = "AutoCycle";
    ended_step = some 3;
    ended_send_ok = none;
    fault_type = "";
    fault_message = "";
    fault_raised_at_ms = none;
    fault_cleared_at_ms = none;
  };
  recipe_id = some 3;
  is_production = true;
  cycle_result = some "completed";
  seq_index = none;
  date_utc = 0;
}

abbrev some_dwells : List DwellRow
some_dwells =
    dwell_row a_firmware a_cycle (a_dwell 2000 2800 0)
    ∷ dwell_row a_firmware a_cycle (a_dwell 2800 4000 1)
    ∷ []

attribute_test : (attribute_pulse some_dwells a_pulse).seq_index ≡ some 1
unfolding attribute_pulse earliest_dwell fell_inside dwell_row
attribute_test = refl

attribute_pulse_example :
    ((seq : ℕ) × (a_pulse.seq_index ≡ some seq) × (attribute_pulse some_dwells a_pulse ≡ a_pulse))
    ⊎ ((o : Option DwellRow) × (a_pulse.seq_index ≡ none)
        × IsEarliest a_pulse.pulse some_dwells o
        × (attribute_pulse some_dwells a_pulse ≡ record a_pulse { seq_index = seq_of o }))
attribute_pulse_example = attribute_pulse_lem some_dwells a_pulse

prune-IsConsistent_example : IsConsistent (prune 3000 one_cycle).0
prune-IsConsistent_example = prune-IsConsistent 3000 one_cycle one_cycle-IsConsistent
