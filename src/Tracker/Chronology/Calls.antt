-- ===== src/Tracker/Chronology/Calls.antt =====
-- Events, faults and step runs keep the timeline.
use canebot_projector_repo.Base.{
  ℕ, ◌≡◌, refl, sym, ◌∙◌, ap, String, ◌&&◌, some, arith, Bool-cases, Option-cases, inl, inr, str_eq,
  lookup,
}
use canebot_projector_repo.Rows.{SrcFsmEvent}
use canebot_projector_repo.Labels.{lane_for_state, fault_result}
use canebot_projector_repo.Tracker.State.{OpenStateSpan, OpenDwell, Interval, Tracker}
use canebot_projector_repo.Tracker.Close.{}
use canebot_projector_repo.Tracker.Events.{
  has_no_main_state, open_span, track_state_span, same_dwell, event_step, next_dwell,
  track_open_dwell, track_dwell, note_event, fsm_event, add_event, is_complete_step, record_event,
  take_event,
}
use canebot_projector_repo.Tracker.Faults.{record_ledger_fault, count_dwell_fault, close_faulted}
use canebot_projector_repo.Tracker.StepRuns.{}
use canebot_projector_repo.Tracker.Chronology.Chains.{IsChain-weaken}
use canebot_projector_repo.Tracker.Chronology.Defs.{
  times, all_spans, IsTimeline, SameTimes, SameTimes-trans, SameTimes-IsTimeline,
}
use canebot_projector_repo.Tracker.Chronology.Closing.{
  close_dwell-SameTimes, close_state_span_at-IsTimeline,
}
use canebot_projector_repo.Tracker.Chronology.Opening.{close_interval-IsTimeline}

-- The open interval is replaced by one with the same start and spans.
pub set_current-SameTimes :
    (t : Tracker) (iv iv' : Interval)
    → t.current ≡ some iv
    → times (some iv') ≡ times (some iv)
    → SameTimes t (record t { current = some iv' })
set_current-SameTimes t iv iv' c e = record {
  closed = refl;
  current = e ∙ ap times (sym c);
  span = refl;
}

-- Another span is open from now on.
set_span-IsTimeline :
    (t : Tracker) (s : OpenStateSpan) (at_ms : ℕ)
    → s.entered_ms ≡ at_ms
    → IsTimeline at_ms t
    → IsTimeline at_ms (record t { open_state = some s })
set_span-IsTimeline t s at_ms e h = record {
  intervals = h.intervals;
  spans = rw e (IsChain-weaken _ _ 0 (all_spans t) _ at_ms h.spans h.entered);
  started = h.started;
  entered = omega (arith, e);
}

track_state_span-IsTimeline :
    (t : Tracker) (e : SrcFsmEvent) (at_ms : ℕ)
    → IsTimeline at_ms t
    → IsTimeline at_ms (track_state_span t e at_ms)
unfolding track_state_span open_span
track_state_span-IsTimeline t e at_ms h = elim (Bool-cases (has_no_main_state e.current_state)) [
  | inl no_state ↦ rw no_state h
  | inr main ↦ elim (Option-cases t.open_state) [
    | inl c ↦ simp (main, c, track_state_span) (set_span-IsTimeline t _ at_ms refl h)
    | inr (s, c) ↦ elim (Bool-cases (str_eq s.state e.current_state)) [
      | inl same ↦ simp (main, c, same, track_state_span) h
      | inr other ↦
          simp (main, c, other, track_state_span)
            (set_span-IsTimeline _ _ at_ms refl
              (close_state_span_at-IsTimeline t at_ms e.event_kind h))
    ]
  ]
]

next_dwell-SameTimes :
    (t : Tracker) (e : SrcFsmEvent) (at_ms : ℕ) → SameTimes t (next_dwell t e at_ms)
unfolding next_dwell
next_dwell-SameTimes t e at_ms =
    let s = close_dwell-SameTimes t (lane_for_state e.current_state) at_ms in
    record { closed = s.closed; current = s.current; span = s.span }

track_open_dwell-SameTimes :
    (t : Tracker) (d : OpenDwell) (e : SrcFsmEvent) (at_ms : ℕ)
    → SameTimes t (track_open_dwell t d e at_ms)
unfolding track_open_dwell
track_open_dwell-SameTimes t d e at_ms =
    elim (Bool-cases (same_dwell d e.current_state (event_step e))) [
      | inl same ↦ rw same (record { closed = refl; current = refl; span = refl })
      | inr other ↦ rw other (
          SameTimes-trans t _ _ (record { closed = refl; current = refl; span = refl })
            (next_dwell-SameTimes _ e at_ms))
    ]

track_dwell-SameTimes :
    (t : Tracker) (e : SrcFsmEvent) (at_ms : ℕ) → SameTimes t (track_dwell t e at_ms)
unfolding track_dwell
track_dwell-SameTimes t e at_ms = elim (Option-cases t.current) [
  | inl c ↦ simp (c, track_dwell) (record { closed = refl; current = refl; span = refl })
  | inr (iv, c) ↦ elim (Option-cases (lookup (lane_for_state e.current_state) t.open_dwells)) [
    | inl none_open ↦ simp (c, none_open, track_dwell) (next_dwell-SameTimes t e at_ms)
    | inr (d, is_open) ↦ simp (c, is_open, track_dwell) (track_open_dwell-SameTimes t d e at_ms)
  ]
]

record_event-IsTimeline :
    (t : Tracker) (e : SrcFsmEvent) (at_ms : ℕ)
    → IsTimeline at_ms t
    → IsTimeline at_ms (record_event t e at_ms)
unfolding record_event
record_event-IsTimeline t e at_ms h = elim (Option-cases t.current) [
  | inl c ↦ simp (c, record_event) h
  | inr (iv, c) ↦
      let iv' = add_event iv (fsm_event iv.order_key e at_ms) in
      let h' =
        SameTimes-IsTimeline at_ms t _ (set_current-SameTimes t iv iv' c (unfold add_event in refl))
          h in
      elim (Bool-cases
        (iv.is_production && (str_eq e.current_state "AutoCycle" && is_complete_step e.step_to))) [
          | inl done ↦
              simp (c, done, record_event) (close_interval-IsTimeline _ at_ms "completed" h')
          | inr going ↦ simp (c, going, record_event) h'
        ]
]

pub take_event-IsTimeline :
    (t : Tracker) (e : SrcFsmEvent) (at_ms : ℕ)
    → IsTimeline at_ms t
    → IsTimeline at_ms (take_event t e at_ms)
unfolding take_event
take_event-IsTimeline t e at_ms h = elim (Option-cases t.current) [
  | inl c ↦ simp (c, take_event) h
  | inr (iv, c) ↦
      let noted =
        SameTimes-IsTimeline at_ms t _
          (set_current-SameTimes t iv (note_event iv e) c (unfold note_event in refl)) h in
      let u = track_state_span (record t { current = some (note_event iv e) }) e at_ms in
      let h' = track_state_span-IsTimeline _ e at_ms noted in
      elim (Bool-cases u.use_step_runs) [
        | inl step_runs ↦ simp (c, step_runs, take_event) (record_event-IsTimeline u e at_ms h')
        | inr derived ↦
            simp (c, derived, take_event)
              (record_event-IsTimeline _ e at_ms
                (SameTimes-IsTimeline at_ms u _ (track_dwell-SameTimes u e at_ms) h'))
      ]
]

pub close_faulted-IsTimeline :
    (t : Tracker) (at_ms : ℕ) (level : String)
    → IsTimeline at_ms t
    → IsTimeline at_ms (close_faulted t at_ms level)
unfolding close_faulted
close_faulted-IsTimeline t at_ms level h = elim (Option-cases t.current) [
  | inl c ↦ simp (c, close_faulted) h
  | inr (iv, c) ↦ elim (Bool-cases iv.is_production) [
    | inl p ↦ simp (c, p, close_faulted) (close_interval-IsTimeline t at_ms (fault_result level) h)
    | inr p ↦ simp (c, p, close_faulted) h
  ]
]

pub noted_fault-SameTimes :
    (t : Tracker) (fault_type : String) (at_ms : ℕ)
    → SameTimes t (count_dwell_fault (record_ledger_fault t fault_type at_ms))
unfolding count_dwell_fault record_ledger_fault
noted_fault-SameTimes t fault_type at_ms = elim (Option-cases (lookup "main" t.open_dwells)) [
  | inl e ↦ simp (e, count_dwell_fault) (record { closed = refl; current = refl; span = refl })
  | inr (d, e) ↦ simp (e, count_dwell_fault) (record { closed = refl; current = refl; span = refl })
]
