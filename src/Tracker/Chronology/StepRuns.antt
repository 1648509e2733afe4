-- ===== src/Tracker/Chronology/StepRuns.antt =====
-- Faults and step runs keep the timeline.
use canebot_projector_repo.Base.{
  ℕ, ◌≤◌, ◌≡◌, refl, sym, ◌∙◌, ap, String, Bool, true, false, ◌&&◌, some, List, leb, Bool-cases,
  Option-cases, inl, inr, lookup_or,
}
use canebot_projector_repo.Rows.{SrcFault, SrcStepRun, StepRunActuator, OutFaultEvent}
use canebot_projector_repo.Labels.{lane_for_state, emits_dwell}
use canebot_projector_repo.Tracker.State.{Interval, Tracker}
use canebot_projector_repo.Tracker.Close.{add_step_dwell}
use canebot_projector_repo.Tracker.Faults.{
  record_ledger_fault, add_fault, fault_row, count_dwell_fault, main_dwell_seq, take_fault,
  step_run_fault_row, takes_step_run_fault, apply_step_run_fault,
}
use canebot_projector_repo.Tracker.StepRuns.{
  add_step_actuators, add_step_run, is_completion, close_completed, after_step_run_fault,
  advance_seq, take_step_run,
}
use canebot_projector_repo.Tracker.Chronology.Defs.{
  times, IsTimeline, SameTimes, SameTimes-IsTimeline, IsTimeline-later,
}
use canebot_projector_repo.Tracker.Chronology.Opening.{close_interval-IsTimeline}
use canebot_projector_repo.Tracker.Chronology.Calls.{
  set_current-SameTimes, close_faulted-IsTimeline, noted_fault-SameTimes,
}

add_fault-times :
    (iv : Interval) (row : OutFaultEvent) → times (some (add_fault iv row)) ≡ times (some iv)
unfolding add_fault
add_fault-times iv row = refl

add_step_run-times :
    (iv : Interval) (sr : SrcStepRun) (actuators : List (String × StepRunActuator))
    (start_ms end_ms seq : ℕ)
    → times (some (add_step_run iv sr actuators start_ms end_ms seq)) ≡ times (some iv)
unfolding add_step_run add_step_dwell add_step_actuators
add_step_run-times iv sr actuators start_ms end_ms seq = refl

pub take_fault-IsTimeline :
    (t : Tracker) (f : SrcFault) (at_ms : ℕ)
    → IsTimeline at_ms t
    → IsTimeline at_ms (take_fault t f at_ms)
unfolding take_fault
take_fault-IsTimeline t f at_ms h = elim (Option-cases t.current) [
  | inl c ↦ simp (c, take_fault) h
  | inr (iv, c) ↦
      let noted = count_dwell_fault (record_ledger_fault t f.fault_type at_ms) in
      let row = fault_row (t.severity f.fault_type) iv.order_key f at_ms (main_dwell_seq noted) in
      let s = noted_fault-SameTimes t f.fault_type at_ms in
      let u = record noted { current = some (add_fault iv row) } in
      let s' : SameTimes t u = record {
        closed = s.closed;
        current = add_fault-times iv row ∙ ap times (sym c);
        span = s.span;
      } in
      simp (c, take_fault)
        (close_faulted-IsTimeline u at_ms (t.severity f.fault_type)
          (SameTimes-IsTimeline at_ms t u s' h))
]

apply_step_run_fault-IsTimeline :
    (t : Tracker) (sr : SrcStepRun) (start_ms end_ms seq : ℕ)
    → IsTimeline end_ms t
    → IsTimeline end_ms (apply_step_run_fault t sr start_ms end_ms seq).0
unfolding apply_step_run_fault
apply_step_run_fault-IsTimeline t sr start_ms end_ms seq h = elim (Option-cases t.current) [
  | inl c ↦ simp (c, apply_step_run_fault) h
  | inr (iv, c) ↦ elim (Bool-cases (takes_step_run_fault t sr start_ms end_ms)) [
    | inr skipped ↦ simp (c, skipped, apply_step_run_fault) h
    | inl taken ↦
        let row = step_run_fault_row (t.severity sr.fault_type) iv.order_key sr end_ms seq in
        simp (c, taken, apply_step_run_fault)
          (close_faulted-IsTimeline _ end_ms _ (
            SameTimes-IsTimeline end_ms t _
              (set_current-SameTimes t iv (add_fault iv row) c (add_fault-times iv row)) h))
  ]
]

close_completed-IsTimeline :
    (t : Tracker) (sr : SrcStepRun) (end_ms : ℕ)
    → IsTimeline end_ms t
    → IsTimeline end_ms (close_completed t sr end_ms)
unfolding close_completed
close_completed-IsTimeline t sr end_ms h = elim (Option-cases t.current) [
  | inl c ↦ simp (c, close_completed) h
  | inr (iv, c) ↦ elim (Bool-cases (iv.is_production && is_completion sr)) [
    | inl done ↦ simp (c, done, close_completed) (close_interval-IsTimeline t end_ms "completed" h)
    | inr going ↦ simp (c, going, close_completed) h
  ]
]

after_step_run_fault-IsTimeline :
    (r : Tracker × Bool) (sr : SrcStepRun) (end_ms : ℕ)
    → IsTimeline end_ms r.0
    → IsTimeline end_ms (after_step_run_fault r sr end_ms)
unfolding after_step_run_fault
after_step_run_fault-IsTimeline (t, true) sr end_ms h = h
after_step_run_fault-IsTimeline (t, false) sr end_ms h = close_completed-IsTimeline t sr end_ms h

advance_seq-SameTimes :
    (t : Tracker) (lane : String) (seq : ℕ) → SameTimes t (advance_seq t lane seq)
unfolding advance_seq
advance_seq-SameTimes t lane seq = record { closed = refl; current = refl; span = refl }

-- The run is added, and the fault and the end it may bring are taken.
add_run-IsTimeline :
    (t : Tracker) (iv : Interval) (sr : SrcStepRun) (actuators : List (String × StepRunActuator))
    (start_ms end_ms seq : ℕ)
    → t.current ≡ some iv
    → IsTimeline end_ms t
    → let u = record (advance_seq t (lane_for_state sr.current_state) seq) {
      current = some (add_step_run iv sr actuators start_ms end_ms seq);
    } in
      IsTimeline end_ms
        (after_step_run_fault (apply_step_run_fault u sr start_ms end_ms seq) sr end_ms)
add_run-IsTimeline t iv sr actuators start_ms end_ms seq c h =
    let s = advance_seq-SameTimes t (lane_for_state sr.current_state) seq in
    let u = record (advance_seq t (lane_for_state sr.current_state) seq) {
      current = some (add_step_run iv sr actuators start_ms end_ms seq);
    } in
    let s' : SameTimes t u = record {
      closed = s.closed;
      current = add_step_run-times iv sr actuators start_ms end_ms seq ∙ ap times (sym c);
      span = s.span;
    } in
    after_step_run_fault-IsTimeline (apply_step_run_fault u sr start_ms end_ms seq) sr end_ms (
      apply_step_run_fault-IsTimeline u sr start_ms end_ms seq
        (SameTimes-IsTimeline end_ms t u s' h))

-- A step run keeps the timeline of a time no later than its end.
pub take_step_run-IsTimeline :
    (t : Tracker) (sr : SrcStepRun) (actuators : List (String × StepRunActuator))
    (start_ms end_ms since now : ℕ)
    → since ≤ now
    → end_ms ≤ now
    → (leb end_ms start_ms ≡ false → since ≤ end_ms)
    → IsTimeline since t
    → IsTimeline now (take_step_run t sr actuators start_ms end_ms)
unfolding take_step_run
take_step_run-IsTimeline t sr actuators start_ms end_ms since now le le' ahead h =
    let h' = IsTimeline-later since now t le h in
    elim (Option-cases t.current) [
      | inl c ↦ simp (c, take_step_run) h'
      | inr (iv, c) ↦ elim (Bool-cases (leb end_ms start_ms)) [
        | inl early ↦ simp (c, early, take_step_run) h'
        | inr late ↦
            let lane = lane_for_state sr.current_state in
            let seq = lookup_or 0 lane t.dwell_seq in
            let s = advance_seq-SameTimes t lane seq in
            elim (Bool-cases (emits_dwell sr.current_state iv.is_production)) [
              | inr dropped ↦
                  simp (c, late, dropped, take_step_run) (SameTimes-IsTimeline now t _ s h')
              | inl kept ↦
                  simp (c, late, kept, take_step_run)
                    (IsTimeline-later end_ms now _ le' (
                      add_run-IsTimeline t iv sr actuators start_ms end_ms seq c
                        (IsTimeline-later since end_ms t (ahead late) h)))
            ]
      ]
    ]
