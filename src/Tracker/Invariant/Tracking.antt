-- ===== src/Tracker/Invariant/Tracking.antt =====
-- State spans and dwells that FSM events open and close keep the invariant.
use canebot_projector_repo.Base.{
  ℕ, ◌<◌, ◌≡◌, refl, ◌∙◌, ap, String, true, Option, none, some, List, [], str_eq, All, arith,
  Bool-cases, Option-cases, inl, inr, is_some, lookup, insert-AllValues, lookup-AllValues,
}
use canebot_projector_repo.Rows.{SrcFsmEvent}
use canebot_projector_repo.Labels.{lane_for_state}
use canebot_projector_repo.Tracker.State.{OpenStateSpan, OpenDwell, Interval, Tracker}
use canebot_projector_repo.Tracker.Close.{
  close_state_span_at, emit_dwell, state_duration, add_state_duration, close_dwell,
}
use canebot_projector_repo.Tracker.Events.{
  has_no_main_state, track_state_span, same_dwell, event_step, count_event, new_dwell, next_dwell,
  track_open_dwell, track_dwell,
}
use canebot_projector_repo.Tracker.Invariant.Defs.{IsOpen, IsOpenDwell, IsWorking, Keeps, IsValidAt}
use canebot_projector_repo.Tracker.Invariant.Intervals.{
  emit_dwell-IsOpen, add_state_duration-IsOpen, state_duration-IsSpan,
}
use canebot_projector_repo.Tracker.Invariant.Closing.{
  close_dwell-IsWorking, close_state_span_at-IsWorking,
}
use canebot_projector_repo.Tracker.Invariant.Frames.{
  close_dwell-Keeps, close_dwell-SameQueue, close_state_span_at-Keeps,
}
use canebot_projector_repo.Tracker.Invariant.Ensuring.{}

pub track_state_span-current :
    (t : Tracker) (e : SrcFsmEvent) (at_ms : ℕ)
    → is_some (track_state_span t e at_ms).current ≡ is_some t.current
unfolding track_state_span
track_state_span-current t e at_ms = ground (arith, close_state_span_at-Keeps t at_ms e.event_kind)

next_dwell-current :
    (t : Tracker) (e : SrcFsmEvent) (at_ms : ℕ)
    → is_some (next_dwell t e at_ms).current ≡ is_some t.current
unfolding next_dwell
next_dwell-current t e at_ms = (close_dwell-SameQueue t (lane_for_state e.current_state) at_ms).1

track_open_dwell-current :
    (t : Tracker) (d : OpenDwell) (e : SrcFsmEvent) (at_ms : ℕ)
    → is_some (track_open_dwell t d e at_ms).current ≡ is_some t.current
unfolding track_open_dwell
track_open_dwell-current t d e at_ms =
    elim (Bool-cases (same_dwell d e.current_state (event_step e))) [
      | inl same ↦ rw same refl
      | inr other ↦ rw other (next_dwell-current _ e at_ms)
    ]

pub track_dwell-current :
    (t : Tracker) (e : SrcFsmEvent) (at_ms : ℕ)
    → is_some (track_dwell t e at_ms).current ≡ is_some t.current
unfolding track_dwell
track_dwell-current t e at_ms = elim (Option-cases t.current) [
  | inl c ↦ rw (c, track_dwell) (ap is_some c)
  | inr (iv, c) ↦ elim (Option-cases (lookup (lane_for_state e.current_state) t.open_dwells)) [
    | inl none_open ↦ simp (c, none_open, track_dwell) (next_dwell-current t e at_ms ∙ rw c refl)
    | inr (d, is_open) ↦
        simp (c, is_open, track_dwell) (track_open_dwell-current t d e at_ms ∙ rw c refl)
  ]
]

module _ (severity : String → String) where
  -- Another open interval in the place of the one that is open.
  pub set_current-IsValidAt :
      (t : Tracker) (iv : Interval) (m n : ℕ)
      → IsValidAt severity m t
      → IsOpen severity n iv
      → IsValidAt severity n (record t { current = some iv })
  set_current-IsValidAt t iv m n v h = record {
    classifier = v.classifier;
    working = record { interval = h; open_dwells = v.working.open_dwells };
    door = v.door;
    queue = v.queue;
    idle = λ e. cc;
  }

  -- Other open dwells while an interval is open.
  pub set_dwells-IsValidAt :
      (t : Tracker) (n : ℕ) (m : List (String × OpenDwell)) (s : List (String × ℕ))
      → IsValidAt severity n t
      → is_some t.current ≡ true
      → All (λ e. IsOpenDwell e.1) m
      → IsValidAt severity n (record t { open_dwells = m; dwell_seq = s })
  set_dwells-IsValidAt t n m s v o hm = record {
    classifier = v.classifier;
    working = record { interval = v.working.interval; open_dwells = hm };
    door = v.door;
    queue = v.queue;
    idle = λ e. cc;
  }

  set_span-IsValidAt :
      (t : Tracker) (n : ℕ) (s : Option OpenStateSpan)
      → IsValidAt severity n t
      → IsValidAt severity n (record t { open_state = s })
  set_span-IsValidAt t n s v = record {
    classifier = v.classifier;
    working = record { interval = v.working.interval; open_dwells = v.working.open_dwells };
    door = v.door;
    queue = v.queue;
    idle = v.idle;
  }

  frame :
      (t u : Tracker) (n : ℕ)
      → IsValidAt severity n t
      → Keeps t u
      → u.closed ≡ t.closed
      → IsWorking (IsOpen severity n) u
      → (u.current ≡ none → u.open_dwells ≡ [])
      → IsValidAt severity n u
  frame t u n v k q w idle = record {
    classifier = k.severity ∙ v.classifier;
    working = w;
    door = rw k.open_door_episode v.door;
    queue = rw q v.queue;
    idle = idle;
  }

  keep_dwell :
      (n : ℕ) (iv : Interval) (d : OpenDwell) (at_ms : ℕ)
      → IsOpenDwell d
      → IsOpen severity n iv
      → IsOpen severity n (emit_dwell iv d at_ms)
  keep_dwell n iv d at_ms lane h = emit_dwell-IsOpen iv h d at_ms lane

  keep_span :
      (n : ℕ) (iv : Interval) (s : OpenStateSpan) (at_ms : ℕ) (reason : String)
      → s.entered_ms < at_ms
      → IsOpen severity n iv
      → IsOpen severity n (add_state_duration iv (state_duration iv.order_key s at_ms reason))
  keep_span n iv s at_ms reason late h =
      add_state_duration-IsOpen iv h _ (state_duration-IsSpan iv h s at_ms reason late)

  close_state_span_at-IsValidAt :
      (t : Tracker) (at_ms : ℕ) (reason : String) (n : ℕ)
      → IsValidAt severity n t
      → IsValidAt severity n (close_state_span_at t at_ms reason)
  close_state_span_at-IsValidAt t at_ms reason n v =
      let (k, (q, o), d) = close_state_span_at-Keeps t at_ms reason in
      let w =
        close_state_span_at-IsWorking (IsOpen severity n) (keep_dwell n) (keep_span n) t at_ms
          reason v.working in
      frame t _ n v k q w (λ e. ground (arith, v.idle))

  close_dwell-IsValidAt :
      (t : Tracker) (lane : String) (at_ms n : ℕ)
      → IsValidAt severity n t
      → is_some t.current ≡ true
      → IsValidAt severity n (close_dwell t lane at_ms)
  close_dwell-IsValidAt t lane at_ms n v o =
      let (q, o') = close_dwell-SameQueue t lane at_ms in
      let w =
        close_dwell-IsWorking (IsOpen severity n) (keep_dwell n) (keep_span n) t lane at_ms
          v.working in
      frame t _ n v (close_dwell-Keeps t lane at_ms) q w (λ e. ground arith)

  pub track_state_span-IsValidAt :
      (t : Tracker) (e : SrcFsmEvent) (at_ms n : ℕ)
      → IsValidAt severity n t
      → IsValidAt severity n (track_state_span t e at_ms)
  unfolding track_state_span
  track_state_span-IsValidAt t e at_ms n v = elim (Bool-cases (has_no_main_state e.current_state)) [
    | inl no_state ↦ rw no_state v
    | inr main ↦ elim (Option-cases t.open_state) [
      | inl c ↦ simp (main, c, track_state_span) (set_span-IsValidAt t n _ v)
      | inr (s, c) ↦ elim (Bool-cases (str_eq s.state e.current_state)) [
        | inl same ↦ simp (main, c, same, track_state_span) v
        | inr other ↦
            simp (main, c, other, track_state_span)
              (set_span-IsValidAt _ n _ (close_state_span_at-IsValidAt t at_ms e.event_kind n v))
      ]
    ]
  ]

  next_dwell-IsValidAt :
      (t : Tracker) (e : SrcFsmEvent) (at_ms n : ℕ)
      → IsValidAt severity n t
      → is_some t.current ≡ true
      → IsValidAt severity n (next_dwell t e at_ms)
  unfolding next_dwell new_dwell
  next_dwell-IsValidAt t e at_ms n v o =
      let lane = lane_for_state e.current_state in
      let u = close_dwell t lane at_ms in
      let v' = close_dwell-IsValidAt t lane at_ms n v o in
      set_dwells-IsValidAt u n _ _ v' ((close_dwell-SameQueue t lane at_ms).1 ∙ o)
        (insert-AllValues IsOpenDwell lane _ u.open_dwells refl v'.working.open_dwells)

  track_open_dwell-IsValidAt :
      (t : Tracker) (d : OpenDwell) (e : SrcFsmEvent) (at_ms n : ℕ)
      → IsValidAt severity n t
      → is_some t.current ≡ true
      → IsOpenDwell d
      → IsValidAt severity n (track_open_dwell t d e at_ms)
  unfolding track_open_dwell count_event
  track_open_dwell-IsValidAt t d e at_ms n v o ok =
      let lane = lane_for_state e.current_state in
      let counted = set_dwells-IsValidAt t n _ t.dwell_seq v o (
        insert-AllValues IsOpenDwell lane (count_event d e) t.open_dwells ok
          v.working.open_dwells) in
      elim (Bool-cases (same_dwell d e.current_state (event_step e))) [
        | inl same ↦ rw same counted
        | inr other ↦ rw other (next_dwell-IsValidAt _ e at_ms n counted o)
      ]

  pub track_dwell-IsValidAt :
      (t : Tracker) (e : SrcFsmEvent) (at_ms n : ℕ)
      → IsValidAt severity n t
      → IsValidAt severity n (track_dwell t e at_ms)
  unfolding track_dwell
  track_dwell-IsValidAt t e at_ms n v = elim (Option-cases t.current) [
    | inl c ↦ simp (c, track_dwell) v
    | inr (iv, c) ↦
        let o : is_some t.current ≡ true = rw c refl in
        let lane = lane_for_state e.current_state in
        elim (Option-cases (lookup lane t.open_dwells)) [
          | inl none_open ↦ simp (c, none_open, track_dwell) (next_dwell-IsValidAt t e at_ms n v o)
          | inr (d, is_open) ↦
              simp (c, is_open, track_dwell)
                (track_open_dwell-IsValidAt t d e at_ms n v o
                  (lookup-AllValues IsOpenDwell lane t.open_dwells d v.working.open_dwells is_open))
        ]
  ]
