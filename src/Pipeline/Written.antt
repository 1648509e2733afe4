-- ===== src/Pipeline/Written.antt =====
-- Whatever the tracker is called with, what it hands over can be written.
use canebot_projector_repo.Writer.Rows.{Firmware}
use canebot_projector_repo.Base.{
  ◌≡◌, refl, ap, String, Bool, true, false, Option, none, some, List, [], ◌∷◌, All, sort,
}
use canebot_projector_repo.Tracker.State.{Interval, new_tracker}
use canebot_projector_repo.Tracker.Doors.{IoPins}
use canebot_projector_repo.Tracker.Inputs.{ends_before, Input, pending_intervals, run}
use canebot_projector_repo.Tracker.Invariant.Defs.{IsClosed}
use canebot_projector_repo.Tracker.Handover.{pending_intervals_lem}
use canebot_projector_repo.Writer.Tables.{Replica}
use canebot_projector_repo.Writer.Flush.{flush_interval}
use canebot_projector_repo.Writer.Consistency.{IsConsistent}
use canebot_projector_repo.Writer.References.{IsWritten, flush_interval-IsConsistent}
use canebot_projector_repo.Pipeline.Intervals.{write_intervals, flush_intervals}

write_intervals-some :
    (firmware : Firmware) (r out : Replica) (iv : Interval) (ivs : List Interval)
    → flush_interval firmware r iv ≡ some out
    → write_intervals firmware r (iv ∷ ivs) ≡ write_intervals firmware out ivs
unfolding write_intervals
write_intervals-some firmware r out iv ivs e =
    ap
      (λ (o : Option Replica). elim o [
        | none ↦ (r, false)
        | some r' ↦ write_intervals firmware r' ivs
      ])
      e

-- The replica `out` is `r` with the intervals written, one behind the other.
abbrev pub AreWritten : Firmware → Replica → List Interval → Replica → Type 0
AreWritten firmware r [] out = out ≡ r
AreWritten firmware r (iv ∷ ivs) out =
    (between : Replica) × IsWritten firmware r iv between × AreWritten firmware between ivs out

pub write_intervals-IsConsistent :
    (severity : String → String) (firmware : Firmware) (r : Replica) (ivs : List Interval)
    → All (IsClosed severity) ivs
    → IsConsistent r
    → let (r', ok) = write_intervals firmware r ivs in
      (ok ≡ true) × IsConsistent r' × AreWritten firmware r ivs r'
unfolding write_intervals
write_intervals-IsConsistent severity firmware r [] a h = (refl, h, refl)
write_intervals-IsConsistent severity firmware r (iv ∷ ivs) a h =
    let (out, e, h', written) = flush_interval-IsConsistent severity firmware r iv a.0 h in
    let (ok, consistent, rest) = write_intervals-IsConsistent severity firmware out ivs a.1 h' in
    rw (write_intervals-some firmware r out iv ivs e) (ok, consistent, (out, written, rest))

-- Whatever calls a new tracker has had, every interval of its queue is written with its rows, in the
-- order of their ends, none is refused, the replica stays consistent, and the queue is empty.
pub flush_intervals-IsConsistent :
    (severity : String → String) (firmware : Firmware) (io : IoPins)
    (use_step_runs step_run_faults : Bool) (is : List Input) (r : Replica)
    → IsConsistent r
    → let t = run io (new_tracker severity use_step_runs step_run_faults) is in
      let (t', r', ok) = flush_intervals firmware t r in
      (ok ≡ true)
      × IsConsistent r'
      × AreWritten firmware r (sort ends_before t.closed) r'
      × (t'.closed ≡ [])
unfolding flush_intervals pending_intervals
flush_intervals-IsConsistent severity firmware io use_step_runs step_run_faults is r h =
    let t = run io (new_tracker severity use_step_runs step_run_faults) is in
    let p = pending_intervals_lem severity io use_step_runs step_run_faults is in
    let w = write_intervals-IsConsistent severity firmware r (pending_intervals t).1 p.0 h in
    (w.0, w.1, w.2, p.3)
