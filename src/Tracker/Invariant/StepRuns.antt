-- ===== src/Tracker/Invariant/StepRuns.antt =====
-- Step runs, with the faults that they bring, keep the invariant.
use canebot_projector_repo.Base.{
  ℕ, ◌<◌, ◌≡◌, refl, ap, String, Bool, true, false, ◌&&◌, List, [], ◌∷◌, leb, leb→lt, All, arith,
  Bool-cases, Option-cases, inl, inr, lookup, lookup_or,
}
use canebot_projector_repo.Rows.{SrcStepRun, StepRunActuator}
use canebot_projector_repo.Labels.{lane_for_state, emits_dwell}
use canebot_projector_repo.Tracker.State.{Interval, Tracker}
use canebot_projector_repo.Tracker.Close.{add_step_dwell}
use canebot_projector_repo.Tracker.Faults.{
  add_fault, step_run_fault_row, takes_step_run_fault, apply_step_run_fault,
}
use canebot_projector_repo.Tracker.StepRuns.{
  is_positive, step_run_dwell, step_actuator, actuator_rows, add_step_run, is_completion,
  close_completed, after_step_run_fault, advance_seq, take_step_run, apply_step_run,
}
use canebot_projector_repo.Tracker.Invariant.Defs.{IsOpen, IsActuator, IsValid, fits}
use canebot_projector_repo.Tracker.Invariant.Intervals.{
  add_fault-IsOpen, add_step_dwell-IsOpen, add_step_actuators-IsOpen,
}
use canebot_projector_repo.Tracker.Invariant.Ensuring.{
  ensure_interval-IsValid, close_interval-IsValid,
}
use canebot_projector_repo.Tracker.Invariant.Events.{production_CanForce, IsOpen-interval-of}
use canebot_projector_repo.Tracker.Invariant.Tracking.{set_current-IsValidAt}
use canebot_projector_repo.Tracker.Invariant.Faults.{close_faulted-IsValid}

module _ (severity : String → String) where
  apply_step_run_fault-IsValid :
      (t : Tracker) (sr : SrcStepRun) (start_ms end_ms seq : ℕ)
      → IsValid severity t
      → IsValid severity (apply_step_run_fault t sr start_ms end_ms seq).0
  unfolding apply_step_run_fault step_run_fault_row
  apply_step_run_fault-IsValid t sr start_ms end_ms seq v = elim (Option-cases t.current) [
    | inl c ↦ simp (c, apply_step_run_fault) v
    | inr (iv, c) ↦ elim (Bool-cases (takes_step_run_fault t sr start_ms end_ms)) [
      | inr skipped ↦ simp (c, skipped, apply_step_run_fault) v
      | inl taken ↦
          let level = t.severity sr.fault_type in
          let row = step_run_fault_row level iv.order_key sr end_ms seq in
          let h =
            add_fault-IsOpen iv (IsOpen-interval-of severity t 0 iv v c) row
              (refl, ap (λ s. s sr.fault_type) v.classifier) in
          simp (c, taken, apply_step_run_fault)
            (close_faulted-IsValid severity _ end_ms level
              (set_current-IsValidAt severity t (add_fault iv row) 0 0 v h))
    ]
  ]

  close_completed-IsValid :
      (t : Tracker) (sr : SrcStepRun) (end_ms : ℕ)
      → IsValid severity t
      → IsValid severity (close_completed t sr end_ms)
  unfolding close_completed
  close_completed-IsValid t sr end_ms v = elim (Option-cases t.current) [
    | inl c ↦ simp (c, close_completed) v
    | inr (iv, c) ↦ elim (Bool-cases (iv.is_production && is_completion sr)) [
      | inl done ↦
          simp (c, done, close_completed)
            (close_interval-IsValid severity t end_ms "completed" v (
              rw c
                (production_CanForce severity "completed" iv (ground arith) (unfold fits in refl))))
      | inr going ↦ simp (c, going, close_completed) v
    ]
  ]

  after_step_run_fault-IsValid :
      (r : Tracker × Bool) (sr : SrcStepRun) (end_ms : ℕ)
      → IsValid severity r.0
      → IsValid severity (after_step_run_fault r sr end_ms)
  unfolding after_step_run_fault
  after_step_run_fault-IsValid (t, true) sr end_ms v = v
  after_step_run_fault-IsValid (t, false) sr end_ms v = close_completed-IsValid t sr end_ms v

-- Every actuator row is of an output that ran.
actuator_rows-All :
    (order_key : String) (sr : SrcStepRun) (start_ms end_ms seq : ℕ)
    (actuators : List (String × StepRunActuator)) (ids : List String)
    → start_ms < end_ms
    → All
        (IsActuator order_key)
        (actuator_rows (step_actuator order_key sr start_ms end_ms seq) actuators ids)
unfolding actuator_rows step_actuator
actuator_rows-All order_key sr start_ms end_ms seq actuators [] late = tt
actuator_rows-All order_key sr start_ms end_ms seq actuators (id ∷ ids) late =
    let rest = actuator_rows-All order_key sr start_ms end_ms seq actuators ids late in
    elim (Option-cases (lookup id actuators)) [
      | inl e ↦ rw (e, actuator_rows) rest
      | inr (a, e) ↦ elim (Bool-cases (is_positive a.total_run_ms)) [
        | inl ran ↦ rw (e, ran, actuator_rows) ((refl, late, ran), rest)
        | inr idle ↦ rw (e, idle, actuator_rows) rest
      ]
    ]

module _ (severity : String → String) where
  add_step_run-IsOpen :
      (iv : Interval) (sr : SrcStepRun) (actuators : List (String × StepRunActuator))
      (start_ms end_ms seq : ℕ)
      → start_ms < end_ms
      → emits_dwell sr.current_state iv.is_production ≡ true
      → IsOpen severity 0 iv
      → IsOpen severity 0 (add_step_run iv sr actuators start_ms end_ms seq)
  unfolding add_step_run step_run_dwell add_step_dwell
  add_step_run-IsOpen iv sr actuators start_ms end_ms seq late kept h =
      let dwell = step_run_dwell iv.order_key sr start_ms end_ms seq in
      let h' = add_step_dwell-IsOpen iv h dwell (refl, late, omega arith, refl, kept) in
      add_step_actuators-IsOpen (add_step_dwell iv dwell) h' _
        (actuator_rows-All iv.order_key sr start_ms end_ms seq actuators _ late)

  advance_seq-IsValid :
      (t : Tracker) (lane : String) (seq : ℕ)
      → IsValid severity t
      → IsValid severity (advance_seq t lane seq)
  unfolding advance_seq
  advance_seq-IsValid t lane seq v = record {
    classifier = v.classifier;
    working = record { interval = v.working.interval; open_dwells = v.working.open_dwells };
    door = v.door;
    queue = v.queue;
    idle = v.idle;
  }

  pub take_step_run-IsValid :
      (t : Tracker) (sr : SrcStepRun) (actuators : List (String × StepRunActuator))
      (start_ms end_ms : ℕ)
      → IsValid severity t
      → IsValid severity (take_step_run t sr actuators start_ms end_ms)
  unfolding take_step_run
  take_step_run-IsValid t sr actuators start_ms end_ms v = elim (Option-cases t.current) [
    | inl c ↦ simp (c, take_step_run) v
    | inr (iv, c) ↦ elim (Bool-cases (leb end_ms start_ms)) [
      | inl early ↦ simp (c, early, take_step_run) v
      | inr late ↦
          let lane = lane_for_state sr.current_state in
          let seq = lookup_or 0 lane t.dwell_seq in
          let counted = advance_seq-IsValid t lane seq v in
          elim (Bool-cases (emits_dwell sr.current_state iv.is_production)) [
            | inr dropped ↦ simp (c, late, dropped, take_step_run) counted
            | inl kept ↦
                let h =
                  add_step_run-IsOpen iv sr actuators start_ms end_ms seq (leb→lt _ _ late) kept
                    (IsOpen-interval-of severity t 0 iv v c) in
                simp (c, late, kept, take_step_run)
                  (after_step_run_fault-IsValid severity _ sr end_ms (
                    apply_step_run_fault-IsValid severity _ sr start_ms end_ms seq
                      (set_current-IsValidAt severity _ _ 0 0 counted h)))
          ]
    ]
  ]

  pub apply_step_run-IsValid :
      (t : Tracker) (sr : SrcStepRun) (actuators : List (String × StepRunActuator))
      → IsValid severity t
      → IsValid severity (apply_step_run t sr actuators)
  unfolding apply_step_run
  apply_step_run-IsValid t sr actuators v =
      take_step_run-IsValid _ sr actuators _ _
        (ensure_interval-IsValid severity t sr.order_key sr.current_state _ v)
