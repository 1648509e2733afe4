-- ===== src/Rollup/Period.antt =====
-- The four figures of a period against its length.
use canebot_projector_repo.Base.{ℕ, ◌+◌, ◌-◌, ◌≤◌, ◌≡◌, ap, ◌∙◌, String, Bool, List, [], ◌∷◌, arith}
use canebot_projector_repo.Rows.{OutStateDuration}
use canebot_projector_repo.Tracker.State.{new_tracker}
use canebot_projector_repo.Tracker.Doors.{IoPins}
use canebot_projector_repo.Tracker.Inputs.{Input, run}
use canebot_projector_repo.Tracker.Chronology.Chains.{IsChain-le}
use canebot_projector_repo.Tracker.Chronology.Defs.{all_spans, IsSpanChain}
use canebot_projector_repo.Tracker.Chronology.Runs.{InOrder, run-new-IsTimeline}
use canebot_projector_repo.Rollup.Occupancy.{
  overlap_ms, StateOccupancy, add_occupancy, state_occupancy,
}
use canebot_projector_repo.Rollup.Overlap.{plus, occupy_row, occupancy_sum, state_occupancy-sum}

-- What the four figures add up to.
unfoldable pub total : StateOccupancy → ℕ
total o = o.run_ms + o.errored + o.maintenance + o.idle

total-plus : (a b : StateOccupancy) → total (plus a b) ≡ total a + total b
unfolding total
total-plus a b = omega arith

total-occupy_row :
    (bs be : ℕ) (s : OutStateDuration)
    → total (occupy_row bs be s) ≡ overlap_ms s.entered_at_ms s.exited_at_ms bs be
unfolding total occupy_row add_occupancy
total-occupy_row bs be s = ground arith

overlap_ms_apart :
    (lo s e hi bs be : ℕ)
    → lo ≤ s
    → s ≤ e
    → e ≤ hi
    → overlap_ms s e bs be + overlap_ms e hi bs be ≤ overlap_ms lo hi bs be
unfolding overlap_ms
overlap_ms_apart lo s e hi bs be a b c = ground arith

overlap_ms_adjacent :
    (s e hi bs be : ℕ)
    → s ≤ e
    → e ≤ hi
    → overlap_ms s e bs be + overlap_ms e hi bs be ≡ overlap_ms s hi bs be
unfolding overlap_ms
overlap_ms_adjacent s e hi bs be a b = ground arith

overlap_ms-le : (s e bs be : ℕ) → overlap_ms s e bs be ≤ be - bs
unfolding overlap_ms
overlap_ms-le s e bs be = ground arith

total_chain :
    (lo : ℕ) (ss : List OutStateDuration) (hi bs be : ℕ)
    → IsSpanChain lo ss hi
    → total (occupancy_sum ss bs be) ≤ overlap_ms lo hi bs be
unfolding occupancy_sum total
total_chain lo [] hi bs be c = omega arith
total_chain lo (s ∷ ss) hi bs be c =
    let ih = total_chain s.exited_at_ms ss hi bs be c.2 in
    let e = total-plus (occupy_row bs be s) (occupancy_sum ss bs be) in
    let r = total-occupy_row bs be s in
    let a =
      overlap_ms_apart lo s.entered_at_ms s.exited_at_ms hi bs be c.0 c.1
        (IsChain-le _ _ s.exited_at_ms ss hi c.2) in
    omega (arith, ih, e, r, a)

-- Where spans follow one another, the four figures of a period add up to no more than its length.
pub state_occupancy-le :
    (lo : ℕ) (ss : List OutStateDuration) (hi bs be : ℕ)
    → IsSpanChain lo ss hi
    → total (state_occupancy ss bs be) ≤ be - bs
state_occupancy-le lo ss hi bs be c =
    rw (state_occupancy-sum ss bs be)
      (omega (arith, total_chain lo ss hi bs be c, overlap_ms-le lo hi bs be))

-- Each span begins exactly where the one before it ends.
abbrev pub IsGapless : ℕ → List OutStateDuration → ℕ → Type 0
IsGapless lo [] hi = lo ≡ hi
IsGapless lo (s ∷ ss) hi =
    (s.entered_at_ms ≡ lo) × (lo ≤ s.exited_at_ms) × IsGapless s.exited_at_ms ss hi

IsGapless-le : (lo : ℕ) (ss : List OutStateDuration) (hi : ℕ) → IsGapless lo ss hi → lo ≤ hi
IsGapless-le lo [] hi c = omega (arith, c)
IsGapless-le lo (s ∷ ss) hi c = omega (arith, c.1, IsGapless-le s.exited_at_ms ss hi c.2)

total_gapless :
    (lo : ℕ) (ss : List OutStateDuration) (hi bs be : ℕ)
    → IsGapless lo ss hi
    → total (occupancy_sum ss bs be) ≡ overlap_ms lo hi bs be
unfolding occupancy_sum total overlap_ms
total_gapless lo [] hi bs be c = ground (arith, c)
total_gapless lo (s ∷ ss) hi bs be c =
    let ih = total_gapless s.exited_at_ms ss hi bs be c.2 in
    let e = total-plus (occupy_row bs be s) (occupancy_sum ss bs be) in
    let r = total-occupy_row bs be s in
    let a =
      overlap_ms_adjacent lo s.exited_at_ms hi bs be c.1 (IsGapless-le s.exited_at_ms ss hi c.2) in
    e
    ∙ ap (λ n. n + total (occupancy_sum ss bs be))
        (r ∙ ap (λ n. overlap_ms n s.exited_at_ms bs be) c.0)
    ∙ ap (λ n. overlap_ms lo s.exited_at_ms bs be + n) ih
    ∙ a

overlap_ms-whole :
    (lo hi bs be : ℕ) → lo ≤ bs → bs ≤ be → be ≤ hi → overlap_ms lo hi bs be ≡ be - bs
unfolding overlap_ms
overlap_ms-whole lo hi bs be a l b = ground arith

-- Where spans without a gap between them cover a period, its four figures add up to its length.
pub state_occupancy-total :
    (lo : ℕ) (ss : List OutStateDuration) (hi bs be : ℕ)
    → IsGapless lo ss hi
    → lo ≤ bs
    → bs ≤ be
    → be ≤ hi
    → total (state_occupancy ss bs be) ≡ be - bs
state_occupancy-total lo ss hi bs be c a l b =
    rw (state_occupancy-sum ss bs be)
      (total_gapless lo ss hi bs be c ∙ overlap_ms-whole lo hi bs be a l b)

-- Where each call of a new tracker begins no earlier than the one in front of it has ended, or is a step
-- run that ends no earlier and leaves the open interval as it is, the spans that the tracker emits never
-- fill a period with more than its length.
pub run-occupancy :
    (io : IoPins) (severity : String → String) (use_step_runs step_run_faults : Bool)
    (is : List Input) (bs be : ℕ)
    → InOrder io (new_tracker severity use_step_runs step_run_faults) 0 is
    → let t = run io (new_tracker severity use_step_runs step_run_faults) is in
      total (state_occupancy (all_spans t) bs be) ≤ be - bs
run-occupancy io severity use_step_runs step_run_faults is bs be o =
    let t = run io (new_tracker severity use_step_runs step_run_faults) is in
    let h = run-new-IsTimeline io severity use_step_runs step_run_faults is o in
    state_occupancy-le 0 (all_spans t) _ bs be h.spans
