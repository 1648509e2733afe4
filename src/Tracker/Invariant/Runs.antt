-- ===== src/Tracker/Invariant/Runs.antt =====
-- Every call of the tracker keeps the invariant, so it holds after any calls.
use canebot_projector_repo.Base.{
  ℕ, ◌<◌, refl, subst, String, Bool, Option, none, List, [], ◌∷◌, str_eq, leb, leb→lt, arith,
  Bool-cases, Option-cases, inl, inr,
}
use canebot_projector_repo.Rows.{SrcOrder, SrcSensorToggle, unix_milli}
use canebot_projector_repo.Tracker.State.{OpenDoor, Tracker, new_tracker}
use canebot_projector_repo.Tracker.Ensure.{ensure_interval, forced_result}
use canebot_projector_repo.Tracker.Doors.{
  IoPins, falls, rises, open_door, count_reset, door_event, close_door_episode, apply_door_switch,
  apply_reset_switch, apply_door_signals, sensor_toggle, record_toggle, take_toggle,
  apply_sensor_toggle,
}
use canebot_projector_repo.Tracker.Inputs.{
  take_order, apply_order, config_state, config_change, take_config_change, apply_config_change,
  flush_open, Input, order, event, step_run, fault, toggle, config, flush, apply, run,
}
use canebot_projector_repo.Tracker.Invariant.Defs.{IsOpenDoor, IsDoorEvent, OnSome, IsValid}
use canebot_projector_repo.Tracker.Invariant.Intervals.{
  add_door_event-IsOpen, add_toggle-IsOpen, add_config-IsOpen, note_order-IsOpen,
}
use canebot_projector_repo.Tracker.Invariant.Ensuring.{
  ensure_interval-IsValid, close_interval-IsValid, forced_result-fits,
}
use canebot_projector_repo.Tracker.Invariant.Events.{IsOpen-interval-of, apply_fsm_event-IsValid}
use canebot_projector_repo.Tracker.Invariant.Tracking.{set_current-IsValidAt}
use canebot_projector_repo.Tracker.Invariant.Faults.{apply_fault-IsValid}
use canebot_projector_repo.Tracker.Invariant.StepRuns.{apply_step_run-IsValid}

door_event-IsDoorEvent :
    (order_key : String) (d : OpenDoor) (s : SrcSensorToggle) (at_ms : ℕ)
    → IsOpenDoor d
    → d.opened_ms < at_ms
    → IsDoorEvent order_key (door_event order_key d s at_ms)
unfolding door_event
door_event-IsDoorEvent order_key d s at_ms (f, l) late = (refl, late, omega arith, f, l)

count_reset-IsOpenDoor :
    (d : OpenDoor) (at_ms : ℕ) → IsOpenDoor d → IsOpenDoor (count_reset d at_ms)
unfolding count_reset
count_reset-IsOpenDoor d at_ms (f, l) = (ground arith, ground arith)

module _ (severity : String → String) where
  set_door-IsValid :
      (t : Tracker) (d : Option OpenDoor)
      → IsValid severity t
      → OnSome IsOpenDoor d
      → IsValid severity (record t { open_door_episode = d })
  set_door-IsValid t d v h = record {
    classifier = v.classifier;
    working = record { interval = v.working.interval; open_dwells = v.working.open_dwells };
    door = h;
    queue = v.queue;
    idle = v.idle;
  }

  close_door_episode-IsValid :
      (t : Tracker) (s : SrcSensorToggle) (at_ms : ℕ)
      → IsValid severity t
      → IsValid severity (close_door_episode t s at_ms)
  unfolding close_door_episode
  close_door_episode-IsValid t s at_ms v = elim (Option-cases t.open_door_episode) [
    | inl e ↦ rw (e, close_door_episode) (set_door-IsValid t none v tt)
    | inr (d, e) ↦ elim (Option-cases t.current) [
      | inl c ↦ rw (e, c, close_door_episode) (set_door-IsValid t none v tt)
      | inr (iv, c) ↦ elim (Bool-cases (leb at_ms d.opened_ms)) [
        | inl early ↦ rw (e, c, early, close_door_episode) (set_door-IsValid t none v tt)
        | inr late ↦
            let row =
              door_event-IsDoorEvent iv.order_key d s at_ms (subst (OnSome IsOpenDoor) e v.door)
                (leb→lt _ _ late) in
            rw (e, c, late, close_door_episode)
              (set_current-IsValidAt severity _ _ 0 0 (set_door-IsValid t none v tt)
                (add_door_event-IsOpen iv (IsOpen-interval-of severity t 0 iv v c) _ row))
      ]
    ]
  ]

  apply_reset_switch-IsValid :
      (t : Tracker) (s : SrcSensorToggle) (at_ms : ℕ)
      → IsValid severity t
      → IsValid severity (apply_reset_switch t s at_ms)
  unfolding apply_reset_switch
  apply_reset_switch-IsValid t s at_ms v = elim (Option-cases t.open_door_episode) [
    | inl e ↦ rw (e, apply_reset_switch) v
    | inr (d, e) ↦ elim (Bool-cases (rises s)) [
      | inl up ↦
          rw (e, up, apply_reset_switch)
            (set_door-IsValid t _ v
              (count_reset-IsOpenDoor d at_ms (subst (OnSome IsOpenDoor) e v.door)))
      | inr level ↦ rw (e, level, apply_reset_switch) v
    ]
  ]

  apply_door_signals-IsValid :
      (io : IoPins) (t : Tracker) (s : SrcSensorToggle) (at_ms : ℕ)
      → IsValid severity t
      → IsValid severity (apply_door_signals io t s at_ms)
  unfolding apply_door_signals apply_door_switch open_door
  apply_door_signals-IsValid io t s at_ms v =
      elim (Bool-cases (str_eq s.input_id io.main_door_switch)) [
        | inl main ↦ elim (Bool-cases (falls s)) [
          | inl down ↦ rw (main, down) (set_door-IsValid t _ v (refl, refl))
          | inr not_down ↦ elim (Bool-cases (rises s)) [
            | inl up ↦ rw (main, not_down, up) (close_door_episode-IsValid t s at_ms v)
            | inr level ↦ rw (main, not_down, level) v
          ]
        ]
        | inr other ↦ elim (Bool-cases (str_eq s.input_id io.cip_bypass_switch)) [
          | inl reset ↦ rw (other, reset) (apply_reset_switch-IsValid t s at_ms v)
          | inr neither ↦ rw (other, neither) v
        ]
      ]

  record_toggle-IsValid :
      (t : Tracker) (s : SrcSensorToggle) (at_ms : ℕ)
      → IsValid severity t
      → IsValid severity (record_toggle t s at_ms)
  unfolding record_toggle sensor_toggle
  record_toggle-IsValid t s at_ms v = elim (Option-cases t.current) [
    | inl c ↦ simp (c, record_toggle) v
    | inr (iv, c) ↦
        simp (c, record_toggle)
          (set_current-IsValidAt severity t _ 0 0 v
            (add_toggle-IsOpen iv (IsOpen-interval-of severity t 0 iv v c) _ refl))
  ]

  apply_sensor_toggle-IsValid :
      (io : IoPins) (t : Tracker) (s : SrcSensorToggle)
      → IsValid severity t
      → IsValid severity (apply_sensor_toggle io t s)
  unfolding apply_sensor_toggle take_toggle
  apply_sensor_toggle-IsValid io t s v =
      let at_ms = unix_milli s.ts in
      let u = ensure_interval t s.order_key s.current_state at_ms in
      let v' = ensure_interval-IsValid severity t s.order_key s.current_state at_ms v in
      elim (Option-cases u.current) [
        | inl c ↦ rw (c, take_toggle) v'
        | inr (iv, c) ↦
            rw (c, take_toggle)
              (record_toggle-IsValid _ s at_ms (apply_door_signals-IsValid io u s at_ms v'))
      ]

  take_order-IsValid :
      (t : Tracker) (o : SrcOrder) → IsValid severity t → IsValid severity (take_order t o)
  unfolding take_order
  take_order-IsValid t o v = elim (Option-cases t.current) [
    | inl c ↦ simp (c, take_order) v
    | inr (iv, c) ↦ elim (Bool-cases (str_eq iv.order_key o.order_key)) [
      | inl same ↦
          simp (c, same, take_order)
            (set_current-IsValidAt severity t _ 0 0 v
              (note_order-IsOpen iv (IsOpen-interval-of severity t 0 iv v c) o))
      | inr other ↦ simp (c, other, take_order) v
    ]
  ]

  take_config_change-IsValid :
      (t : Tracker) (key old_val new_val : String) (at_ms : ℕ)
      → IsValid severity t
      → IsValid severity (take_config_change t key old_val new_val at_ms)
  unfolding take_config_change config_change
  take_config_change-IsValid t key old_val new_val at_ms v = elim (Option-cases t.current) [
    | inl c ↦ simp (c, take_config_change) v
    | inr (iv, c) ↦
        simp (c, take_config_change)
          (set_current-IsValidAt severity t _ 0 0 v
            (add_config-IsOpen iv (IsOpen-interval-of severity t 0 iv v c) _ refl))
  ]

  flush_open-IsValid :
      (t : Tracker) (at_ms : ℕ) → IsValid severity t → IsValid severity (flush_open t at_ms)
  unfolding flush_open
  flush_open-IsValid t at_ms v = elim (Option-cases t.current) [
    | inl c ↦ simp (c, flush_open) v
    | inr (iv, c) ↦
        simp (c, flush_open)
          (close_interval-IsValid severity t _ (forced_result iv) v
            (rw c (inr (forced_result-fits severity iv (IsOpen-interval-of severity t 0 iv v c)))))
  ]

  -- Every call keeps the invariant.
  pub apply-IsValid :
      (io : IoPins) (t : Tracker) (i : Input) → IsValid severity t → IsValid severity (apply io t i)
  unfolding apply apply_order apply_config_change
  apply-IsValid io t (order o) v =
      take_order-IsValid _ o (ensure_interval-IsValid severity t o.order_key "AutoCycle" _ v)
  apply-IsValid io t (event e) v = apply_fsm_event-IsValid severity t e v
  apply-IsValid io t (step_run sr actuators) v = apply_step_run-IsValid severity t sr actuators v
  apply-IsValid io t (fault f) v = apply_fault-IsValid severity t f v
  apply-IsValid io t (toggle s) v = apply_sensor_toggle-IsValid io t s v
  apply-IsValid io t (config key old_val new_val at) v =
      take_config_change-IsValid _ key old_val new_val _
        (ensure_interval-IsValid severity t "" (config_state t) _ v)
  apply-IsValid io t (flush at_ms) v = flush_open-IsValid t at_ms v

  pub new_tracker-IsValid :
      (use_step_runs step_run_faults : Bool)
      → IsValid severity (new_tracker severity use_step_runs step_run_faults)
  unfolding new_tracker
  new_tracker-IsValid use_step_runs step_run_faults = record {
    classifier = refl;
    working = record { interval = tt; open_dwells = tt };
    door = tt;
    queue = tt;
    idle = λ e. refl;
  }

  run_from-IsValid :
      (io : IoPins) (t : Tracker) (is : List Input)
      → IsValid severity t
      → IsValid severity (run io t is)
  unfolding run
  run_from-IsValid io t [] v = v
  run_from-IsValid io t (i ∷ is) v = run_from-IsValid io (apply io t i) is (apply-IsValid io t i v)

  -- From a new tracker, any calls in any order, with any times, leave the tracker valid.
  pub run-IsValid :
      (io : IoPins) (use_step_runs step_run_faults : Bool) (is : List Input)
      → IsValid severity (run io (new_tracker severity use_step_runs step_run_faults) is)
  run-IsValid io use_step_runs step_run_faults is =
      run_from-IsValid io _ is (new_tracker-IsValid use_step_runs step_run_faults)
