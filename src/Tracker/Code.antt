-- ===== src/Tracker/Code.antt =====
-- All definitions of the tracker, for evaluation at concrete inputs.
use canebot_projector_repo.Base.{lookup, insert, delete, add, sort, sort_strings, show, show_padded}
use canebot_projector_repo.Rows.{unix_milli}
use canebot_projector_repo.Labels.{
  lane_for_state, result_for_state, synth_prefix, emits_dwell, fault_result, severity_for,
}
use canebot_projector_repo.Tracker.State.{new_interval, new_tracker}
use canebot_projector_repo.Tracker.Close.{
  state_duration, add_state_duration, close_state_span_at, close_open_state_span, step_dwell,
  add_step_dwell, emit_dwell, close_dwell, close_dwells, close_open_dwells, dominant_from,
  dominant_key, finish, queue_interval, close_interval,
}
use canebot_projector_repo.Tracker.Ensure.{
  synth_key, is_overdue, forced_result, close_overdue, reset_per_interval, open_interval,
  is_current_order, is_current_kind, ensure_order, open_synthetic, ensure_kind, ensure_interval,
}
use canebot_projector_repo.Tracker.Events.{
  open_span, has_no_main_state, track_state_span, same_step, same_dwell, event_step, count_event,
  new_dwell, next_dwell, track_open_dwell, track_dwell, note_event, fsm_event, add_event,
  is_complete_step, record_event, take_event, apply_fsm_event,
}
use canebot_projector_repo.Tracker.Faults.{
  is_recent, record_ledger_fault, covers, any_covers, ledger_covers, add_fault, fault_row,
  count_dwell_fault, main_dwell_seq, close_faulted, take_fault, apply_fault, step_run_fault_row,
  takes_step_run_fault, apply_step_run_fault,
}
use canebot_projector_repo.Tracker.StepRuns.{
  step_run_dwell, step_actuator, actuator_rows, add_step_actuators, add_step_run, is_completion,
  close_completed, after_step_run_fault, advance_seq, take_step_run, apply_step_run,
}
use canebot_projector_repo.Tracker.Doors.{
  falls, rises, open_door, count_reset, ms_to_first, door_event, add_door_event, close_door_episode,
  apply_door_switch, apply_reset_switch, apply_door_signals, sensor_toggle, add_toggle,
  record_toggle, take_toggle, apply_sensor_toggle,
}
use canebot_projector_repo.Tracker.Inputs.{
  note_order, take_order, apply_order, config_state, config_change, add_config, take_config_change,
  apply_config_change, flush_time, flush_open, ends_before, pending_intervals, apply, run,
}

-- A line that names this definition unfolds them all.
unfoldable pub tracker_code : Unit {0}
unfolding lookup insert delete add sort_strings show show_padded sort unix_milli lane_for_state
    result_for_state synth_prefix emits_dwell fault_result severity_for new_interval new_tracker
    state_duration add_state_duration close_state_span_at close_open_state_span step_dwell
    add_step_dwell emit_dwell close_dwell close_dwells close_open_dwells dominant_from dominant_key
    finish queue_interval close_interval synth_key is_overdue forced_result close_overdue
    reset_per_interval open_interval is_current_order is_current_kind ensure_order open_synthetic
    ensure_kind ensure_interval open_span has_no_main_state track_state_span same_step same_dwell
    event_step count_event new_dwell next_dwell track_open_dwell track_dwell note_event fsm_event
    add_event is_complete_step record_event take_event apply_fsm_event is_recent record_ledger_fault
    covers any_covers ledger_covers add_fault fault_row count_dwell_fault main_dwell_seq
    close_faulted take_fault apply_fault step_run_fault_row takes_step_run_fault
    apply_step_run_fault step_run_dwell step_actuator actuator_rows add_step_actuators add_step_run
    is_completion close_completed after_step_run_fault advance_seq take_step_run apply_step_run
    falls rises open_door count_reset ms_to_first door_event add_door_event close_door_episode
    apply_door_switch apply_reset_switch apply_door_signals sensor_toggle add_toggle record_toggle
    take_toggle apply_sensor_toggle note_order take_order apply_order config_state config_change
    add_config take_config_change apply_config_change flush_time flush_open ends_before
    pending_intervals apply run
tracker_code = tt
