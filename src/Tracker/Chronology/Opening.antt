-- ===== src/Tracker/Chronology/Opening.antt =====
-- Queueing an interval and opening the next keep the timeline.
use mathlib.Core.List.{append_assoc, append-nil}
use canebot_projector_repo.Base.{
  ℕ, ◌≤◌, ◌≡◌, refl, sym, ◌∙◌, ap, subst, String, Option, none, some, List, [], ◌∷◌, ◌++◌, arith,
  leb, Bool-cases, Option-cases, inl, inr, str_eq,
}
use canebot_projector_repo.Labels.{result_for_state}
use canebot_projector_repo.Tracker.State.{Interval, new_interval, Tracker}
use canebot_projector_repo.Tracker.Close.{
  close_open_state_span, close_open_dwells, finish, queue_interval, close_interval,
}
use canebot_projector_repo.Tracker.Ensure.{
  is_overdue, is_current_order, is_current_kind, forced_result, close_overdue, reset_per_interval,
  open_interval, open_synthetic, ensure_order, ensure_kind, ensure_interval,
}
use canebot_projector_repo.Tracker.Invariant.Frames.{parts, close_interval-current}
use canebot_projector_repo.Tracker.Chronology.Chains.{IsChain-weaken, IsChain-snoc, IsChain-prefix}
use canebot_projector_repo.Tracker.Chronology.Defs.{
  times, frontier, span_frontier, current_spans, closed_spans, IsIntervalChain, IsSpanChain,
  IsTimeline, SameTimes-IsTimeline,
}
use canebot_projector_repo.Tracker.Chronology.Closing.{
  close_open_dwells-SameTimes, close_state_span_at-IsTimeline,
}

-- The open interval is dropped.
drop_current-IsTimeline :
    (t : Tracker) (at_ms : ℕ) → IsTimeline at_ms t → IsTimeline at_ms (record t { current = none })
drop_current-IsTimeline t at_ms h = record {
  intervals = IsChain-weaken _ _ 0 t.closed _ at_ms h.intervals h.started;
  spans =
      subst (λ l. IsSpanChain 0 l (span_frontier t.open_state at_ms))
        (sym (append-nil (closed_spans t.closed)))
        (IsChain-prefix _ _ 0 (closed_spans t.closed) (current_spans (times t.current)) _ h.spans);
  started = omega arith;
  entered = h.entered;
}

closed_spans-snoc :
    (ivs : List Interval) (iv : Interval)
    → closed_spans (ivs ++ iv ∷ []) ++ [] ≡ closed_spans ivs ++ iv.state_durations
closed_spans-snoc [] iv = append-nil _ ∙ append-nil _
closed_spans-snoc (x ∷ ivs) iv =
    append_assoc x.state_durations (closed_spans (ivs ++ iv ∷ [])) []
    ∙ ap (λ l. x.state_durations ++ l) (closed_spans-snoc ivs iv)
    ∙ sym (append_assoc x.state_durations (closed_spans ivs) iv.state_durations)

-- The open interval goes to the end of the queue.
push_current-IsTimeline :
    (t : Tracker) (iv done : Interval) (at_ms : ℕ)
    → t.current ≡ some iv
    → done.started_ms ≡ iv.started_ms
    → done.state_durations ≡ iv.state_durations
    → done.ended_ms ≡ at_ms
    → IsTimeline at_ms t
    → IsTimeline at_ms (record t { current = none; closed = t.closed ++ done ∷ [] })
push_current-IsTimeline t iv done at_ms c s d e h = record {
  intervals =
      IsChain-snoc _ _ 0 t.closed done iv.started_ms at_ms
        (subst (λ (x : Option Interval). IsIntervalChain 0 t.closed (frontier (times x) at_ms)) c
          h.intervals)
        (omega (arith, s)) (omega (arith, s, e, started_le)) (omega (arith, e));
  spans =
      subst (λ l. IsSpanChain 0 l (span_frontier t.open_state at_ms))
        (ap (λ l. closed_spans t.closed ++ l) (sym d) ∙ sym (closed_spans-snoc t.closed done))
        (subst
          (λ (x : Option Interval).
            IsSpanChain 0 (closed_spans t.closed ++ current_spans (times x))
              (span_frontier t.open_state at_ms))
          c h.spans);
  started = omega arith;
  entered = h.entered;
}
  where
    started_le : iv.started_ms ≤ at_ms
    started_le = subst (λ (x : Option Interval). frontier (times x) at_ms ≤ at_ms) c h.started

queue_interval-IsTimeline :
    (t : Tracker) (at_ms : ℕ) (forced : String)
    → IsTimeline at_ms t
    → IsTimeline at_ms (queue_interval t at_ms forced)
unfolding queue_interval finish
queue_interval-IsTimeline t at_ms forced h = elim (Option-cases t.current) [
  | inl c ↦ simp (c, queue_interval) h
  | inr (iv, c) ↦ elim (Bool-cases (leb at_ms iv.started_ms)) [
    | inl early ↦ simp (c, early, queue_interval) (drop_current-IsTimeline t at_ms h)
    | inr late ↦
        simp (c, late, queue_interval) (push_current-IsTimeline t iv _ at_ms c refl refl refl h)
  ]
]

pub close_interval-IsTimeline :
    (t : Tracker) (at_ms : ℕ) (forced : String)
    → IsTimeline at_ms t
    → IsTimeline at_ms (close_interval t at_ms forced)
unfolding close_interval close_open_state_span
close_interval-IsTimeline t at_ms forced h = elim (Option-cases t.current) [
  | inl c ↦ simp (c, close_interval) h
  | inr (iv, c) ↦
      simp (c, close_interval)
        (queue_interval-IsTimeline (parts t at_ms) at_ms forced (
          close_state_span_at-IsTimeline (close_open_dwells t at_ms) at_ms "interval_end"
            (SameTimes-IsTimeline at_ms t _ (close_open_dwells-SameTimes t at_ms) h)))
]

close_overdue-IsTimeline :
    (t : Tracker) (at_ms : ℕ) → IsTimeline at_ms t → IsTimeline at_ms (close_overdue t at_ms)
unfolding close_overdue
close_overdue-IsTimeline t at_ms h = elim (Option-cases t.current) [
  | inl c ↦ simp (c, close_overdue) h
  | inr (iv, c) ↦ elim (Bool-cases (is_overdue iv at_ms)) [
    | inl late ↦
        simp (c, late, close_overdue) (close_interval-IsTimeline t at_ms (forced_result iv) h)
    | inr early ↦ simp (c, early, close_overdue) h
  ]
]

-- An interval that starts now and has no spans is opened where none is open.
open_interval-IsTimeline :
    (t : Tracker) (iv : Interval) (at_ms : ℕ)
    → t.current ≡ none
    → iv.started_ms ≡ at_ms
    → iv.state_durations ≡ []
    → IsTimeline at_ms t
    → IsTimeline at_ms (open_interval t iv)
unfolding open_interval reset_per_interval
open_interval-IsTimeline t iv at_ms c s d h = record {
  intervals = rw s (
      subst (λ (x : Option Interval). IsIntervalChain 0 t.closed (frontier (times x) at_ms)) c
        h.intervals);
  spans = rw d (
      subst
        (λ (x : Option Interval).
          IsSpanChain 0 (closed_spans t.closed ++ current_spans (times x))
            (span_frontier t.open_state at_ms))
        c h.spans);
  started = omega (arith, s);
  entered = h.entered;
}

pub ensure_interval-IsTimeline :
    (t : Tracker) (order_key state : String) (at_ms : ℕ)
    → IsTimeline at_ms t
    → IsTimeline at_ms (ensure_interval t order_key state at_ms)
unfolding ensure_interval ensure_order ensure_kind open_synthetic new_interval
ensure_interval-IsTimeline t order_key state at_ms h =
    let u = close_overdue t at_ms in
    let h' = close_overdue-IsTimeline t at_ms h in
    let w = close_interval u at_ms "" in
    let closed = close_interval-IsTimeline u at_ms "" h' in
    let gone = close_interval-current u at_ms "" in
    let want = result_for_state state in
    elim (Bool-cases (str_eq order_key "")) [
      | inl synthetic ↦ elim (Bool-cases (is_current_kind u want)) [
        | inl same ↦ rw (synthetic, same) h'
        | inr other ↦
            rw (synthetic, other)
              (open_interval-IsTimeline _ _ at_ms gone refl refl (record {
                intervals = closed.intervals;
                spans = closed.spans;
                started = closed.started;
                entered = closed.entered;
              }))
      ]
      | inr production ↦ elim (Bool-cases (is_current_order u order_key)) [
        | inl same ↦ rw (production, same) h'
        | inr other ↦
            rw (production, other) (open_interval-IsTimeline w _ at_ms gone refl refl closed)
      ]
    ]
