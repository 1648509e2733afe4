-- ===== src/Tracker/Chronology/Closing.antt =====
-- Closing and opening intervals keep the timeline.
use mathlib.Core.List.{append_assoc}
use canebot_projector_repo.Base.{
  ℕ, ◌≤◌, ◌≡◌, refl, sym, ◌∙◌, ap, subst, String, Option, none, some, List, [], ◌∷◌, ◌++◌, arith,
  leb, Bool-cases, Option-cases, inl, inr, lookup,
}
use canebot_projector_repo.Tracker.State.{OpenStateSpan, OpenDwell, Interval, Tracker}
use canebot_projector_repo.Tracker.Close.{
  state_duration, add_state_duration, close_state_span_at, add_step_dwell, emit_dwell, close_dwell,
  close_dwells, close_open_dwells,
}
use canebot_projector_repo.Tracker.Ensure.{}
use canebot_projector_repo.Tracker.Chronology.Chains.{IsChain-snoc}
use canebot_projector_repo.Tracker.Chronology.Defs.{
  times, frontier, span_frontier, current_spans, closed_spans, IsIntervalChain, IsSpanChain,
  IsTimeline, SameTimes, SameTimes-trans,
}

emit_dwell-times :
    (iv : Interval) (d : OpenDwell) (at_ms : ℕ)
    → times (some (emit_dwell iv d at_ms)) ≡ times (some iv)
unfolding emit_dwell add_step_dwell
emit_dwell-times iv d at_ms = ground arith

pub close_dwell-SameTimes :
    (t : Tracker) (lane : String) (at_ms : ℕ) → SameTimes t (close_dwell t lane at_ms)
unfolding close_dwell
close_dwell-SameTimes t lane at_ms = elim (Option-cases (lookup lane t.open_dwells)) [
  | inl e ↦ simp (e, close_dwell) (record { closed = refl; current = refl; span = refl })
  | inr (d, e) ↦ elim (Option-cases t.current) [
    | inl c ↦ simp (e, c, close_dwell) (record { closed = refl; current = refl; span = refl })
    | inr (iv, c) ↦
        simp (e, c, close_dwell)
          (record {
            closed = refl;
            current = emit_dwell-times iv d at_ms ∙ ap times (sym c);
            span = refl;
          })
  ]
]

close_dwells-SameTimes :
    (t : Tracker) (lanes : List String) (at_ms : ℕ) → SameTimes t (close_dwells t lanes at_ms)
unfolding close_dwells
close_dwells-SameTimes t [] at_ms = record { closed = refl; current = refl; span = refl }
close_dwells-SameTimes t (lane ∷ lanes) at_ms =
    let u = close_dwell t lane at_ms in
    SameTimes-trans t u _ (close_dwell-SameTimes t lane at_ms)
      (close_dwells-SameTimes u lanes at_ms)

-- The span that is emitted begins where the open span began, and ends now.
add_span-IsTimeline :
    (t : Tracker) (iv : Interval) (s : OpenStateSpan) (at_ms : ℕ) (reason : String)
    → t.current ≡ some iv
    → t.open_state ≡ some s
    → IsTimeline at_ms t
    → IsTimeline at_ms (record t {
      current = some (add_state_duration iv (state_duration iv.order_key s at_ms reason));
      open_state = none;
    })
unfolding add_state_duration state_duration
add_span-IsTimeline t iv s at_ms reason c o h = record {
  intervals =
      subst (λ (x : Option Interval). IsIntervalChain 0 t.closed (frontier (times x) at_ms)) c
        h.intervals;
  spans =
      subst (λ l. IsSpanChain 0 l at_ms) (append_assoc (closed_spans t.closed) iv.state_durations _)
        (IsChain-snoc _ _ 0 (closed_spans t.closed ++ iv.state_durations) _ s.entered_ms at_ms
          (subst
            (λ (x : Option OpenStateSpan).
              IsSpanChain 0 (closed_spans t.closed ++ iv.state_durations) (span_frontier x at_ms))
            o
            (subst
              (λ (x : Option Interval).
                IsSpanChain 0 (closed_spans t.closed ++ current_spans (times x))
                  (span_frontier t.open_state at_ms))
              c h.spans))
          (omega arith) entered_le (omega arith));
  started = subst (λ (x : Option Interval). frontier (times x) at_ms ≤ at_ms) c h.started;
  entered = omega arith;
}
  where
    entered_le : s.entered_ms ≤ at_ms
    entered_le = subst (λ (x : Option OpenStateSpan). span_frontier x at_ms ≤ at_ms) o h.entered

pub close_state_span_at-IsTimeline :
    (t : Tracker) (at_ms : ℕ) (reason : String)
    → IsTimeline at_ms t
    → IsTimeline at_ms (close_state_span_at t at_ms reason)
unfolding close_state_span_at
close_state_span_at-IsTimeline t at_ms reason h = elim (Option-cases t.open_state) [
  | inl e ↦ simp (e, close_state_span_at) h
  | inr (s, e) ↦ elim (Option-cases t.current) [
    | inl c ↦ simp (e, c, close_state_span_at) h
    | inr (iv, c) ↦ elim (Bool-cases (leb at_ms s.entered_ms)) [
      | inl early ↦ simp (e, c, early, close_state_span_at) h
      | inr late ↦
          simp (e, c, late, close_state_span_at) (add_span-IsTimeline t iv s at_ms reason c e h)
    ]
  ]
]

pub close_open_dwells-SameTimes :
    (t : Tracker) (at_ms : ℕ) → SameTimes t (close_open_dwells t at_ms)
unfolding close_open_dwells
close_open_dwells-SameTimes t at_ms = close_dwells-SameTimes t _ at_ms
