-- ===== src/Pipeline/Intervals.antt =====
-- `flushIntervals` of cmd/projector/main.go.
use canebot_projector_repo.Writer.Rows.{Firmware}
use canebot_projector_repo.Base.{Bool, true, false, none, some, List, [], ◌∷◌}
use canebot_projector_repo.Tracker.State.{Interval, Tracker}
use canebot_projector_repo.Tracker.Inputs.{pending_intervals}
use canebot_projector_repo.Writer.Tables.{Replica}
use canebot_projector_repo.Writer.Flush.{flush_interval}

-- Writes the intervals up to the first that is refused, and says whether none was.
unfoldable pub write_intervals : Firmware → Replica → List Interval → Replica × Bool
write_intervals firmware r [] = (r, true)
write_intervals firmware r (iv ∷ ivs) = elim (flush_interval firmware r iv) [
  | none ↦ (r, false)
  | some r' ↦ write_intervals firmware r' ivs
]

unfoldable pub flush_intervals : Firmware → Tracker → Replica → Tracker × Replica × Bool
unfolding pending_intervals write_intervals
flush_intervals firmware t r =
    let (t', out) = pending_intervals t in
    let (r', ok) = write_intervals firmware r out in (t', r', ok)
