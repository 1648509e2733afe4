-- ===== src/Writer/Pruning.antt =====
-- `Prune` of cmd/projector/writer.go.
use canebot_projector_repo.Base.{
  ℕ, String, Bool, true, false, not, ◌&&◌, List, [], ◌∷◌, filter, ltb, if◌then◌else◌,
}
use canebot_projector_repo.Writer.Tables.{
  Cycle, SpanRow, DwellRow, FaultRow, ToggleRow, DoorRow, ConfigRow, ActuatorRow, CipRun, RollupRow,
  GapRow, Replica,
}
use canebot_projector_repo.Writer.Flush.{has_cycle}

-- `WHERE event_ts < ?` does not hold.
abbrev pub is_kept : ℕ → ℕ → Bool
is_kept cutoff ts = not (ltb ts cutoff)

-- The children that are older than `cutoff` are deleted.
unfoldable pub prune_children : ℕ → Replica → Replica
prune_children cutoff r = record r {
  sensor_toggles = filter (λ (s : ToggleRow). is_kept cutoff s.event_ts) r.sensor_toggles;
  config_history = filter (λ (c : ConfigRow). is_kept cutoff c.event_ts) r.config_history;
  state_durations = filter (λ (s : SpanRow). is_kept cutoff s.event_ts) r.state_durations;
  step_dwells = filter (λ (d : DwellRow). is_kept cutoff d.event_ts) r.step_dwells;
  fault_events = filter (λ (f : FaultRow). is_kept cutoff f.event_ts) r.fault_events;
  actuator_intervals = filter (λ (a : ActuatorRow). is_kept cutoff a.event_ts) r.actuator_intervals;
  door_events = filter (λ (d : DoorRow). is_kept cutoff d.event_ts) r.door_events;
  cip_runs = filter (λ (c : CipRun). is_kept cutoff c.event_ts) r.cip_runs;
  rollups = filter (λ (w : RollupRow). is_kept cutoff w.event_ts) r.rollups;
  gaps = filter (λ (g : GapRow). is_kept cutoff g.event_ts) r.gaps;
}

unfoldable pub refer_all {ℓ} : {A : Type ℓ} → (A → String) → List Cycle → List A → Bool
unfolding has_cycle
refer_all key cycles [] = true
refer_all key cycles (x ∷ xs) = has_cycle cycles (key x) && refer_all key cycles xs

-- Whether every child still has its cycle among `cycles`.
unfoldable pub can_keep : List Cycle → Replica → Bool
unfolding refer_all
can_keep cycles r =
    refer_all (λ (s : SpanRow). s.span.order_key) cycles r.state_durations
    && (refer_all (λ (d : DwellRow). d.dwell.order_key) cycles r.step_dwells
        && (refer_all (λ (f : FaultRow). f.fault.order_key) cycles r.fault_events
            && (refer_all (λ (s : ToggleRow). s.toggle.order_key) cycles r.sensor_toggles
                && (refer_all (λ (d : DoorRow). d.door.order_key) cycles r.door_events
                    && (refer_all (λ (c : ConfigRow). c.config.order_key) cycles r.config_history
                        && (refer_all (λ (a : ActuatorRow). a.pulse.order_key) cycles
                              r.actuator_intervals
                            && refer_all (λ (c : CipRun). c.order_id) cycles r.cip_runs))))))

-- The replica behind `Prune`, and whether it succeeded: the cycles are deleted in one statement, which
-- is refused where a child would lose its cycle.
unfoldable pub prune : ℕ → Replica → Replica × Bool
unfolding prune_children can_keep
prune cutoff r =
    let pruned = prune_children cutoff r in
    let cycles = filter (λ (c : Cycle). is_kept cutoff c.event_ts) r.cycles in
    if can_keep cycles pruned then (record pruned { cycles = cycles }, true) else (pruned, false)
