-- ===== src/Tracker/Chronology/Defs.antt =====
-- The timeline of the tracker at the time `now`, and the changes that do not touch it.
use canebot_projector_repo.Base.{ℕ, ◌≤◌, ◌≡◌, ◌∙◌, Option, none, some, List, [], ◌∷◌, ◌++◌, arith}
use canebot_projector_repo.Rows.{OutStateDuration}
use canebot_projector_repo.Tracker.State.{OpenStateSpan, Interval, Tracker}
use canebot_projector_repo.Tracker.Chronology.Chains.{IsChain, IsChain-weaken}

-- The parts of the open interval that the timeline speaks of: its start and its spans.
abbrev pub times : Option Interval → Option (ℕ × List OutStateDuration)
times none = none
times (some iv) = some (iv.started_ms, iv.state_durations)

-- Where the queue of intervals has to end, and where the spans have to end.
abbrev pub frontier : Option (ℕ × List OutStateDuration) → ℕ → ℕ
frontier none now = now
frontier (some (start, spans)) now = start

abbrev pub span_frontier : Option OpenStateSpan → ℕ → ℕ
span_frontier none now = now
span_frontier (some s) now = s.entered_ms

abbrev pub current_spans : Option (ℕ × List OutStateDuration) → List OutStateDuration
current_spans none = []
current_spans (some (start, spans)) = spans

abbrev pub closed_spans : List Interval → List OutStateDuration
closed_spans [] = []
closed_spans (iv ∷ ivs) = iv.state_durations ++ closed_spans ivs

-- The spans of the closed intervals and of the open one, as they were emitted.
abbrev pub all_spans : Tracker → List OutStateDuration
all_spans t = closed_spans t.closed ++ current_spans (times t.current)

abbrev pub IsIntervalChain : ℕ → List Interval → ℕ → Type 0
IsIntervalChain = IsChain (λ (iv : Interval). iv.started_ms) (λ iv. iv.ended_ms)

abbrev pub IsSpanChain : ℕ → List OutStateDuration → ℕ → Type 0
IsSpanChain = IsChain (λ (s : OutStateDuration). s.entered_at_ms) (λ s. s.exited_at_ms)

-- Closed intervals do not overlap, and end before the open one starts; nor do spans; and nothing open
-- began later than now.
pub record IsTimeline (now : ℕ) (t : Tracker) : Type 0 where
  pub intervals : IsIntervalChain 0 t.closed (frontier (times t.current) now)
  pub spans : IsSpanChain 0 (all_spans t) (span_frontier t.open_state now)
  pub started : frontier (times t.current) now ≤ now
  pub entered : span_frontier t.open_state now ≤ now

-- What the timeline speaks of is the same.
pub record SameTimes (t u : Tracker) : Type 0 where
  pub closed : u.closed ≡ t.closed
  pub current : times u.current ≡ times t.current
  pub span : u.open_state ≡ t.open_state

pub SameTimes-trans : (t u v : Tracker) → SameTimes t u → SameTimes u v → SameTimes t v
SameTimes-trans t u v h k = record {
  closed = k.closed ∙ h.closed;
  current = k.current ∙ h.current;
  span = k.span ∙ h.span;
}

pub SameTimes-IsTimeline :
    (now : ℕ) (t u : Tracker) → SameTimes t u → IsTimeline now t → IsTimeline now u
SameTimes-IsTimeline now t u s h = record {
  intervals = rw (s.closed, s.current) h.intervals;
  spans = rw (s.closed, s.current, s.span) h.spans;
  started = rw s.current h.started;
  entered = rw s.span h.entered;
}

-- Time passes.
pub IsTimeline-later :
    (now later : ℕ) (t : Tracker) → now ≤ later → IsTimeline now t → IsTimeline later t
IsTimeline-later now later t le h = record {
  intervals = IsChain-weaken _ _ 0 t.closed _ _ h.intervals (frontier_later (times t.current));
  spans = IsChain-weaken _ _ 0 (all_spans t) _ _ h.spans (span_frontier_later t.open_state);
  started = frontier_now (times t.current) h.started;
  entered = span_frontier_now t.open_state h.entered;
}
  where
    frontier_later : (c : Option (ℕ × List OutStateDuration)) → frontier c now ≤ frontier c later
    frontier_later none = le
    frontier_later (some (a, b)) = omega arith

    span_frontier_later : (s : Option OpenStateSpan) → span_frontier s now ≤ span_frontier s later
    span_frontier_later none = le
    span_frontier_later (some s) = omega arith

    frontier_now :
        (c : Option (ℕ × List OutStateDuration)) → frontier c now ≤ now → frontier c later ≤ later
    frontier_now none x = omega arith
    frontier_now (some (a, b)) x = omega arith

    span_frontier_now :
        (s : Option OpenStateSpan) → span_frontier s now ≤ now → span_frontier s later ≤ later
    span_frontier_now none x = omega arith
    span_frontier_now (some s) x = omega arith
