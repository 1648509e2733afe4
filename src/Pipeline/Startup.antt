-- ===== src/Pipeline/Startup.antt =====
-- How `run` of cmd/projector/main.go starts: on what a run before it has left in the replica and the
-- store, with a new tracker.
use canebot_projector_repo.Base.{ℕ, ◌-◌, ◌*◌, ◌/◌, String, Bool, ◌&&◌, ltb, if◌then◌else◌}
use canebot_projector_repo.Tracker.State.{new_tracker}
use canebot_projector_repo.Writer.Tables.{Replica}
use canebot_projector_repo.Writer.Gaps.{record_gap}
use canebot_projector_repo.Pipeline.Store.{Store, last_alive}
use canebot_projector_repo.Pipeline.Tick.{Projector}

-- What `run` is given: the classifier of faults, what the source's schema has, and the polling
-- interval in nanoseconds.
pub record Settings : Type 0 where
  pub severity : String → String
  pub has_step_runs : Bool
  pub has_fault_cols : Bool
  pub interval : ℕ

abbrev pub version : String
version = "0.1.0"

unfoldable pub source_branch : Settings → String
source_branch s =
    if s.has_step_runs then if s.has_fault_cols then "step_runs+faults" else "step_runs" else "base"

-- Whether the projector was away for more than two polling intervals, since a tick that it completed.
unfoldable pub was_away : Settings → ℕ → ℕ → Bool
was_away s last started_ms = ltb 0 last && ltb (2 * s.interval / 1000000) (started_ms - last)

unfoldable pub start : Settings → ℕ → Replica → Store → Projector
unfolding source_branch was_away record_gap last_alive new_tracker
start s started_ms rep st =
    let last = last_alive st in
    record {
      trk = new_tracker s.severity s.has_step_runs (s.has_step_runs && s.has_fault_cols);
      rep =
          if was_away s last started_ms
          then record_gap rep last started_ms "projector not running" version (source_branch s)
          else rep;
      st = st;
      last_timeline_ms = 0;
    }
