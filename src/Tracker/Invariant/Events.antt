-- ===== src/Tracker/Invariant/Events.antt =====
-- FSM events keep the invariant.
use canebot_projector_repo.Base.{
  ℕ, ◌≡◌, refl, sym, ◌∙◌, subst, String, true, ◌&&◌, some, str_eq, arith, Bool-cases, Option-cases,
  inl, inr, is_some,
}
use canebot_projector_repo.Rows.{SrcFsmEvent}
use canebot_projector_repo.Tracker.State.{Interval, Tracker}
use canebot_projector_repo.Tracker.Close.{}
use canebot_projector_repo.Tracker.Events.{
  track_state_span, note_event, fsm_event, add_event, is_complete_step, record_event, take_event,
  apply_fsm_event,
}
use canebot_projector_repo.Tracker.Invariant.Defs.{IsOpen, OnSome, IsValidAt, IsValid, fits}
use canebot_projector_repo.Tracker.Invariant.Intervals.{note_event-IsOpen, add_event-IsOpen}
use canebot_projector_repo.Tracker.Invariant.Closing.{}
use canebot_projector_repo.Tracker.Invariant.Frames.{}
use canebot_projector_repo.Tracker.Invariant.Ensuring.{
  CanForce, ensure_interval-IsValid, close_interval-IsValid,
}
use canebot_projector_repo.Tracker.Invariant.Tracking.{
  set_current-IsValidAt, track_state_span-IsValidAt, track_dwell-IsValidAt,
  track_state_span-current, track_dwell-current,
}

module _ (severity : String → String) where
  pub IsOpen-interval-of :
      (t : Tracker) (n : ℕ) (iv : Interval)
      → IsValidAt severity n t
      → t.current ≡ some iv
      → IsOpen severity n iv
  IsOpen-interval-of t n iv v c = subst (OnSome (IsOpen severity n)) c v.working.interval

  -- A production result can be forced on a production interval.
  pub production_CanForce :
      (forced : String) (iv : Interval)
      → iv.is_production ≡ true
      → fits true forced ≡ true
      → CanForce forced iv
  production_CanForce forced iv p ok = inr (subst (λ b. fits b forced ≡ true) (sym p) ok)

  record_event-IsValid :
      (t : Tracker) (e : SrcFsmEvent) (at_ms : ℕ)
      → IsValidAt severity 1 t
      → is_some t.current ≡ true
      → IsValid severity (record_event t e at_ms)
  unfolding record_event add_event
  record_event-IsValid t e at_ms v o = elim (Option-cases t.current) [
    | inl c ↦ absurd (ground arith)
    | inr (iv, c) ↦
        let row = fsm_event iv.order_key e at_ms in
        let h =
          add_event-IsOpen iv (IsOpen-interval-of t 1 iv v c) row (unfold fsm_event in refl) in
        let v' = set_current-IsValidAt severity t (add_event iv row) 1 0 v h in
        let marker = str_eq e.current_state "AutoCycle" && is_complete_step e.step_to in
        elim (Bool-cases (iv.is_production && marker)) [
          | inl done ↦
              simp (c, done, record_event)
                (close_interval-IsValid severity _ at_ms "completed" v' (
                  production_CanForce "completed" (add_event iv row) (ground arith)
                    (unfold fits in refl)))
          | inr going ↦ simp (c, going, record_event) v'
        ]
  ]

  pub take_event-IsValid :
      (t : Tracker) (e : SrcFsmEvent) (at_ms : ℕ)
      → IsValid severity t
      → IsValid severity (take_event t e at_ms)
  unfolding take_event
  take_event-IsValid t e at_ms v = elim (Option-cases t.current) [
    | inl c ↦ simp (c, take_event) v
    | inr (iv, c) ↦
        let h = note_event-IsOpen iv (IsOpen-interval-of t 0 iv v c) e in
        let u = record t { current = some (note_event iv e) } in
        let v' =
          track_state_span-IsValidAt severity u e at_ms 1
            (set_current-IsValidAt severity t (note_event iv e) 0 1 v h) in
        let u' = track_state_span u e at_ms in
        let o = track_state_span-current u e at_ms in
        elim (Bool-cases u'.use_step_runs) [
          | inl step_runs ↦ simp (c, step_runs, take_event) (record_event-IsValid u' e at_ms v' o)
          | inr derived ↦
              simp (c, derived, take_event)
                (record_event-IsValid _ e at_ms (track_dwell-IsValidAt severity u' e at_ms 1 v')
                  (track_dwell-current u' e at_ms ∙ o))
        ]
  ]

  pub apply_fsm_event-IsValid :
      (t : Tracker) (e : SrcFsmEvent) → IsValid severity t → IsValid severity (apply_fsm_event t e)
  unfolding apply_fsm_event
  apply_fsm_event-IsValid t e v =
      take_event-IsValid _ e _ (ensure_interval-IsValid severity t e.order_key e.current_state _ v)
