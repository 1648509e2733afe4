-- ===== src/Examples/OfTracker.antt =====
-- The theorems on cmd/projector/tracker.go, for an order of two drinks between idle stretches.
use canebot_projector_repo.Base.{
  ◌≤◌, ◌≡◌, true, false, some, List, [], ◌∷◌, ◌++◌, refl, inl, inr, All, Perm, IsSorted, arith,
  lookup_or,
}
use canebot_projector_repo.Rows.{OutConfigChange, SrcStepRun, unix_milli}
use canebot_projector_repo.Labels.{severity_for}
use canebot_projector_repo.Tracker.State.{Interval, new_interval, Tracker, new_tracker}
use canebot_projector_repo.Tracker.Close.{dominant_key}
use canebot_projector_repo.Tracker.Faults.{record_ledger_fault, apply_step_run_fault}
use canebot_projector_repo.Tracker.Ledger.{record_all, apply_step_run_fault-repeated}
use canebot_projector_repo.Tracker.Ensure.{ensure_interval}
use canebot_projector_repo.Tracker.Inputs.{
  Input, event, step_run, flush, config_change, pending_intervals, ends_before, apply_config_change,
  apply, run,
}
use canebot_projector_repo.Tracker.Code.{tracker_code}
use canebot_projector_repo.Tracker.Scenarios.{pins, an_event, a_drink}
use canebot_projector_repo.Tracker.Invariant.Defs.{IsClosed, IsValid}
use canebot_projector_repo.Tracker.Invariant.Runs.{run-IsValid}
use canebot_projector_repo.Tracker.Dominant.{dominant_key-max}
use canebot_projector_repo.Tracker.Handover.{pending_intervals_lem}
use canebot_projector_repo.Tracker.Ensured.{IsFresh, IsWanted, ensure_interval_lem}
use canebot_projector_repo.Tracker.ConfigChange.{apply_config_change-idle}
use canebot_projector_repo.Tracker.Chronology.Defs.{IsTimeline}
use canebot_projector_repo.Tracker.Chronology.Runs.{InOrder, end_time, run-new-IsTimeline}

run-IsValid_example : IsValid severity_for (run pins (new_tracker severity_for false false) a_drink)
run-IsValid_example = run-IsValid severity_for pins false false a_drink

abbrev a_step_run : SrcStepRun
a_step_run = record {
  id = 3;
  started = 2500000000;
  ended = 3100000000;
  current_state = "AutoCycle";
  step = 10;
  previous_state = "AutoCycle";
  previous_step = some 9;
  order_key = "ORD-1";
  fault_type = "CrusherMotorFault";
  fault_message = "";
  sensors_start = "";
  sensors_end = "";
  sensors_trace = "";
  actuators_json = "";
}

-- The same order, where the controller records step runs: an event lies inside the one here.
abbrev pub a_drink_by_runs : List Input
a_drink_by_runs =
    event (an_event "" "HomeIdle" 0 1000)
    ∷ event (an_event "ORD-1" "AutoCycle" 1 2000)
    ∷ event (an_event "ORD-1" "AutoCycle" 10 2700)
    ∷ step_run a_step_run []
    ∷ event (an_event "ORD-1" "AutoCycle" 19 4000)
    ∷ flush 6000
    ∷ []

a_step_run-IsUnderway :
    let t = new_tracker severity_for true true in
    let t1 = apply pins t (event (an_event "" "HomeIdle" 0 1000)) in
    let t2 = apply pins t1 (event (an_event "ORD-1" "AutoCycle" 1 2000)) in
    let t3 = apply pins t2 (event (an_event "ORD-1" "AutoCycle" 10 2700)) in
    ensure_interval t3 "ORD-1" "AutoCycle" (unix_milli 2500000000) ≡ t3
unfolding tracker_code
a_step_run-IsUnderway = refl

pub a_drink_by_runs-InOrder : InOrder pins (new_tracker severity_for true true) 0 a_drink_by_runs
unfolding unix_milli
a_drink_by_runs-InOrder = (
  inl (omega arith),
  (
    inl (omega arith),
    (
      inl (omega arith),
      (inr (omega arith, a_step_run-IsUnderway), (inl (omega arith), (inl (omega arith), tt))),
    ),
  ),
)

run-new-IsTimeline_example :
    IsTimeline
      (end_time 0 a_drink_by_runs)
      (run pins (new_tracker severity_for true true) a_drink_by_runs)
run-new-IsTimeline_example =
    run-new-IsTimeline pins severity_for true true a_drink_by_runs a_drink_by_runs-InOrder

pending_intervals_example :
    let t = run pins (new_tracker severity_for false false) a_drink in
    let (t', out) = pending_intervals t in
    All (IsClosed severity_for) out
    × IsSorted ends_before out
    × Perm out t.closed
    × (t'.closed ≡ [])
pending_intervals_example = pending_intervals_lem severity_for pins false false a_drink

-- The tracker while the order is made.
abbrev in_production : Tracker
in_production = record (new_tracker severity_for false false) {
  current = some (new_interval "ORD-1" true 2000 "aborted");
  open_dwells =
      (
        "main",
        record {
          lane = "main";
          state = "AutoCycle";
          step = some 1;
          started_ms = 2000;
          seq_index = 0;
          events = 1;
          io_events = 0;
          transition = 0;
          faults = 0;
        },
      )
      ∷ [];
}

ensure_interval_example :
    (iv : Interval) × ((ensure_interval in_production "" "Error" 3000).current ≡ some iv)
    × IsWanted "" "Error" iv
    × IsFresh 3000 iv
ensure_interval_example = ensure_interval_lem in_production "" "Error" 3000

dominant_key-max_example :
    lookup_or 0 "CupPresentSensorMalf" (("CrusherMotorFault", 2) ∷ ("CupPresentSensorMalf", 1) ∷ [])
    ≤ lookup_or 0
        (dominant_key (("CrusherMotorFault", 2) ∷ ("CupPresentSensorMalf", 1) ∷ []))
        (("CrusherMotorFault", 2) ∷ ("CupPresentSensorMalf", 1) ∷ [])
dominant_key-max_example =
    dominant_key-max (("CrusherMotorFault", 2) ∷ ("CupPresentSensorMalf", 1) ∷ [])
      "CupPresentSensorMalf"

-- The tracker while the machine is cleaned.
abbrev in_maintenance : Tracker
in_maintenance =
    run pins (new_tracker severity_for false false) (event (an_event "" "Maintenance" 1 6000) ∷ [])

apply_config_change-idle_example :
    (iv : Interval) × ((apply_config_change in_maintenance "GlassLimit" "100" "200"
        7000000000).current
      ≡ some iv)
    × (iv.is_production ≡ false)
    × (iv.result ≡ "idle")
    × (before : List OutConfigChange) × (iv.configs
        ≡ before
          ++ config_change iv.order_key "GlassLimit" "100" "200" (unix_milli 7000000000) ∷ [])
apply_config_change-idle_example =
    apply_config_change-idle severity_for in_maintenance "GlassLimit" "100" "200" 7000000000
      (run-IsValid severity_for pins false false (event (an_event "" "Maintenance" 1 6000) ∷ []))

apply_step_run_fault-repeated_example :
    let u =
      record_all
        (record_ledger_fault in_production "CrusherMotorFault" 3000)
        (("TilterMotorFault", 4000) ∷ []) in
    apply_step_run_fault u a_step_run 2500 3100 0 ≡ (u, false)
apply_step_run_fault-repeated_example =
    apply_step_run_fault-repeated in_production 3000 (("TilterMotorFault", 4000) ∷ []) a_step_run
      2500 3100 0 (omega arith, tt) (omega arith) (omega arith)
