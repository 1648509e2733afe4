-- ===== src/Tracker/Chronology/Runs.antt =====
-- Every call that does not go back in time, or is a step run of the open interval, keeps the timeline.
use canebot_projector_repo.Base.{
  ℕ, ◌+◌, ◌≤◌, ◌≡◌, refl, subst, String, Bool, Option, List, [], ◌∷◌, arith, leb, leb→le, leb→lt,
  max, ◌⊎◌, false, Bool-cases, Option-cases, inl, inr,
}
use canebot_projector_repo.Rows.{SrcOrder, SrcSensorToggle, unix_milli}
use canebot_projector_repo.Tracker.State.{Interval, Tracker, new_tracker}
use canebot_projector_repo.Tracker.Ensure.{forced_result, ensure_interval}
use canebot_projector_repo.Tracker.Close.{close_interval}
use canebot_projector_repo.Tracker.Events.{apply_fsm_event}
use canebot_projector_repo.Tracker.Faults.{apply_fault}
use canebot_projector_repo.Tracker.StepRuns.{apply_step_run}
use canebot_projector_repo.Tracker.Doors.{
  IoPins, add_door_event, close_door_episode, apply_door_switch, apply_reset_switch,
  apply_door_signals, add_toggle, record_toggle, take_toggle, apply_sensor_toggle,
}
use canebot_projector_repo.Tracker.Inputs.{
  note_order, take_order, apply_order, config_state, add_config, take_config_change,
  apply_config_change, flush_time, flush_open, Input, order, event, step_run, fault, toggle, config,
  flush, apply, run,
}
use canebot_projector_repo.Tracker.Chronology.Defs.{
  times, frontier, IsTimeline, SameTimes, SameTimes-trans, SameTimes-IsTimeline, IsTimeline-later,
}
use canebot_projector_repo.Tracker.Chronology.Opening.{
  close_interval-IsTimeline, ensure_interval-IsTimeline,
}
use canebot_projector_repo.Tracker.Chronology.Calls.{take_event-IsTimeline}
use canebot_projector_repo.Tracker.Chronology.StepRuns.{
  take_fault-IsTimeline, take_step_run-IsTimeline,
}

-- The time at which a call begins, and the time that it takes the tracker to.
abbrev pub begins : Input → ℕ
begins (order o) = unix_milli o.ts
begins (event e) = unix_milli e.ts
begins (step_run sr actuators) = unix_milli sr.started
begins (fault f) = unix_milli f.ts
begins (toggle s) = unix_milli s.ts
begins (config key old_val new_val at) = unix_milli at
begins (flush at_ms) = at_ms

abbrev pub ends : Input → ℕ
ends (order o) = unix_milli o.ts
ends (event e) = unix_milli e.ts
ends (step_run sr actuators) = max (unix_milli sr.started) (unix_milli sr.ended)
ends (fault f) = unix_milli f.ts
ends (toggle s) = unix_milli s.ts
ends (config key old_val new_val at) = unix_milli at
ends (flush at_ms) = at_ms + 1

close_door_episode-SameTimes :
    (t : Tracker) (s : SrcSensorToggle) (at_ms : ℕ) → SameTimes t (close_door_episode t s at_ms)
unfolding close_door_episode add_door_event
close_door_episode-SameTimes t s at_ms = ground arith

apply_door_signals-SameTimes :
    (io : IoPins) (t : Tracker) (s : SrcSensorToggle) (at_ms : ℕ)
    → SameTimes t (apply_door_signals io t s at_ms)
unfolding apply_door_signals apply_door_switch apply_reset_switch
apply_door_signals-SameTimes io t s at_ms = ground (arith, close_door_episode-SameTimes t s at_ms)

record_toggle-SameTimes :
    (t : Tracker) (s : SrcSensorToggle) (at_ms : ℕ) → SameTimes t (record_toggle t s at_ms)
unfolding record_toggle add_toggle
record_toggle-SameTimes t s at_ms = ground arith

take_toggle-SameTimes :
    (io : IoPins) (t : Tracker) (s : SrcSensorToggle) (at_ms : ℕ)
    → SameTimes t (take_toggle io t s at_ms)
unfolding take_toggle
take_toggle-SameTimes io t s at_ms = elim (Option-cases t.current) [
  | inl c ↦ simp (c, take_toggle) (record { closed = refl; current = refl; span = refl })
  | inr (iv, c) ↦
      simp (c, take_toggle)
        (SameTimes-trans t _ _ (apply_door_signals-SameTimes io t s at_ms)
          (record_toggle-SameTimes _ s at_ms))
]

take_order-SameTimes : (t : Tracker) (o : SrcOrder) → SameTimes t (take_order t o)
unfolding take_order note_order
take_order-SameTimes t o = ground arith

take_config_change-SameTimes :
    (t : Tracker) (key old_val new_val : String) (at_ms : ℕ)
    → SameTimes t (take_config_change t key old_val new_val at_ms)
unfolding take_config_change add_config
take_config_change-SameTimes t key old_val new_val at_ms = ground arith

flush_open-IsTimeline :
    (t : Tracker) (at_ms : ℕ) → IsTimeline at_ms t → IsTimeline (at_ms + 1) (flush_open t at_ms)
unfolding flush_open flush_time
flush_open-IsTimeline t at_ms h = elim (Option-cases t.current) [
  | inl c ↦ simp (c, flush_open) (IsTimeline-later at_ms (at_ms + 1) t (omega arith) h)
  | inr (iv, c) ↦
      let started : iv.started_ms ≤ at_ms =
        subst (λ (x : Option Interval). frontier (times x) at_ms ≤ at_ms) c h.started in
      elim (Bool-cases (leb at_ms iv.started_ms)) [
        | inl early ↦
            let e : iv.started_ms + 1 ≡ at_ms + 1 = omega (arith, leb→le _ _ early) in
            simp (c, early, flush_open)
              (subst (λ n. IsTimeline n (close_interval t (iv.started_ms + 1) (forced_result iv))) e
                (close_interval-IsTimeline t _ (forced_result iv)
                  (IsTimeline-later at_ms _ t (omega arith) h)))
        | inr late ↦
            simp (c, late, flush_open)
              (IsTimeline-later at_ms (at_ms + 1) _ (omega arith)
                (close_interval-IsTimeline t at_ms (forced_result iv) h))
      ]
]

leb-≤ : (a b : ℕ) → leb a b ≡ false → b ≤ a
leb-≤ a b late = omega (arith, leb→lt a b late)

pub apply-IsTimeline :
    (io : IoPins) (t : Tracker) (i : Input)
    → IsTimeline (begins i) t
    → IsTimeline (ends i) (apply io t i)
unfolding apply apply_order apply_fsm_event apply_step_run apply_fault apply_sensor_toggle
    apply_config_change
apply-IsTimeline io t (order o) h =
    SameTimes-IsTimeline _ _ _ (take_order-SameTimes _ o)
      (ensure_interval-IsTimeline t o.order_key "AutoCycle" _ h)
apply-IsTimeline io t (event e) h =
    take_event-IsTimeline _ e _ (ensure_interval-IsTimeline t e.order_key e.current_state _ h)
apply-IsTimeline io t (step_run sr actuators) h =
    take_step_run-IsTimeline _ sr actuators _ _ _ _ (omega arith) (omega arith)
      (λ late. leb-≤ _ _ late) (ensure_interval-IsTimeline t sr.order_key sr.current_state _ h)
apply-IsTimeline io t (fault f) h =
    take_fault-IsTimeline _ f _ (ensure_interval-IsTimeline t f.order_key f.state _ h)
apply-IsTimeline io t (toggle s) h =
    SameTimes-IsTimeline _ _ _ (take_toggle-SameTimes io _ s _)
      (ensure_interval-IsTimeline t s.order_key s.current_state _ h)
apply-IsTimeline io t (config key old_val new_val at) h =
    SameTimes-IsTimeline _ _ _ (take_config_change-SameTimes _ key old_val new_val _)
      (ensure_interval-IsTimeline t "" (config_state t) _ h)
apply-IsTimeline io t (flush at_ms) h = flush_open-IsTimeline t at_ms h

-- A step run that ends no earlier than now and leaves the open interval as it is.
abbrev pub IsUnderway : Tracker → ℕ → Input → Type 0
IsUnderway t now (order o) = ⊥
IsUnderway t now (event e) = ⊥
IsUnderway t now (step_run sr actuators) =
    (now ≤ unix_milli sr.ended)
    × (ensure_interval t sr.order_key sr.current_state (unix_milli sr.started) ≡ t)
IsUnderway t now (fault f) = ⊥
IsUnderway t now (toggle s) = ⊥
IsUnderway t now (config key old_val new_val at) = ⊥
IsUnderway t now (flush at_ms) = ⊥

-- Each call begins no earlier than the one in front of it has ended; or it is a step run that ends no
-- earlier, which is where `tick` merges it, and that neither closes nor opens an interval, however long
-- ago it started.
abbrev pub InOrder : IoPins → Tracker → ℕ → List Input → Type 0
InOrder io t now [] = Unit {0}
InOrder io t now (i ∷ is) =
    ((now ≤ begins i) ⊎ IsUnderway t now i) × InOrder io (apply io t i) (ends i) is

apply-InOrder :
    (io : IoPins) (t : Tracker) (now : ℕ) (i : Input)
    → (now ≤ begins i) ⊎ IsUnderway t now i
    → IsTimeline now t
    → IsTimeline (ends i) (apply io t i)
unfolding apply apply_step_run
apply-InOrder io t now i (inl le) h =
    apply-IsTimeline io t i (IsTimeline-later now (begins i) t le h)
apply-InOrder io t now (step_run sr actuators) (inr u) h = rw u.1 (
    take_step_run-IsTimeline t sr actuators _ _ now _ (omega (arith, u.0)) (omega arith)
      (λ late. u.0) h)
apply-InOrder io t now (order o) (inr u) h = elim u [ ]
apply-InOrder io t now (event e) (inr u) h = elim u [ ]
apply-InOrder io t now (fault f) (inr u) h = elim u [ ]
apply-InOrder io t now (toggle s) (inr u) h = elim u [ ]
apply-InOrder io t now (config key old_val new_val at) (inr u) h = elim u [ ]
apply-InOrder io t now (flush at_ms) (inr u) h = elim u [ ]

abbrev pub end_time : ℕ → List Input → ℕ
end_time now [] = now
end_time now (i ∷ is) = end_time (ends i) is

run-IsTimeline :
    (io : IoPins) (now : ℕ) (t : Tracker) (is : List Input)
    → InOrder io t now is
    → IsTimeline now t
    → IsTimeline (end_time now is) (run io t is)
unfolding run
run-IsTimeline io now t [] o h = h
run-IsTimeline io now t (i ∷ is) o h =
    run-IsTimeline io (ends i) (apply io t i) is o.1 (apply-InOrder io t now i o.0 h)

-- Where each call of a new tracker begins no earlier than the one in front of it has ended, or is a step
-- run that ends no earlier and leaves the open interval as it is, the closed intervals come in the order
-- of time and do not overlap, each starting no earlier than the one before it ended, and end before the
-- interval that is open; and so do the spans of main states over all of these intervals.
pub run-new-IsTimeline :
    (io : IoPins) (severity : String → String) (use_step_runs step_run_faults : Bool)
    (is : List Input)
    → InOrder io (new_tracker severity use_step_runs step_run_faults) 0 is
    → IsTimeline (end_time 0 is) (run io (new_tracker severity use_step_runs step_run_faults) is)
unfolding new_tracker
run-new-IsTimeline io severity use_step_runs step_run_faults is o =
    run-IsTimeline io 0 _ is o (record {
      intervals = omega arith;
      spans = omega arith;
      started = omega arith;
      entered = omega arith;
    })
