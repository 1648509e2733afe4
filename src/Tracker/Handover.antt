-- ===== src/Tracker/Handover.antt =====
-- `PendingIntervals` of cmd/projector/tracker.go: what the writer is given.
use canebot_projector_repo.Base.{
  ◌≡◌, refl, String, Bool, true, false, List, [], All, Perm, IsSorted, sort-perm, sort-All,
  sort-IsSorted, arith,
}
use canebot_projector_repo.Tracker.State.{Interval, new_tracker}
use canebot_projector_repo.Tracker.Doors.{IoPins}
use canebot_projector_repo.Tracker.Inputs.{Input, ends_before, pending_intervals, run}
use canebot_projector_repo.Tracker.Invariant.Defs.{IsClosed}
use canebot_projector_repo.Tracker.Invariant.Runs.{run-IsValid}

ends_before-asymmetric : (a b : Interval) → ends_before a b ≡ true → ends_before b a ≡ false
unfolding ends_before
ends_before-asymmetric a b h = ground arith

ends_before-negation :
    (a b c : Interval) → ends_before a b ≡ false → ends_before b c ≡ false → ends_before a c ≡ false
unfolding ends_before
ends_before-negation a b c h k = ground arith

-- Every interval that is handed over after any calls of a new tracker is well formed, the intervals
-- come in the order of their ends, they are those of the queue, and the queue is empty afterwards.
pub pending_intervals_lem :
    (severity : String → String) (io : IoPins) (use_step_runs step_run_faults : Bool)
    (is : List Input)
    → let t = run io (new_tracker severity use_step_runs step_run_faults) is in
      let (t', out) = pending_intervals t in
      All (IsClosed severity) out × IsSorted ends_before out × Perm out t.closed × (t'.closed ≡ [])
unfolding pending_intervals
pending_intervals_lem severity io use_step_runs step_run_faults is =
    let t = run io (new_tracker severity use_step_runs step_run_faults) is in
    let v = run-IsValid severity io use_step_runs step_run_faults is in
    (
      sort-All ends_before (IsClosed severity) t.closed v.queue,
      sort-IsSorted ends_before ends_before-asymmetric ends_before-negation t.closed,
      sort-perm ends_before t.closed,
      refl,
    )
