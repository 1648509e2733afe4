-- ===== src/Examples/OfPipeline.antt =====
-- The theorems on cmd/projector/main.go, for the rows of two tables, one of which is read in full batches.
use canebot_projector_repo.Base.{
  ℕ, ◌≤◌, ◌≡◌, refl, String, true, false, none, some, List, [], ◌∷◌, ◌++◌, Perm, All, IsSorted,
  arith, sort,
}
use canebot_projector_repo.Labels.{severity_for}
use canebot_projector_repo.Tracker.State.{new_tracker}
use canebot_projector_repo.Tracker.Inputs.{ends_before, flush, run}
use canebot_projector_repo.Tracker.Scenarios.{pins, a_drink}
use canebot_projector_repo.Examples.Replicas.{a_firmware, one_cycle, one_cycle-IsConsistent}
use canebot_projector_repo.Writer.Tables.{empty_replica}
use canebot_projector_repo.Writer.Consistency.{IsConsistent, empty_replica-IsConsistent}
use canebot_projector_repo.Pipeline.Intervals.{flush_intervals}
use canebot_projector_repo.Pipeline.Merge.{
  TimelineItem, comes_before, last_time, count, note_full, note_batch, safe_up_to, is_beyond, split,
  merge, concat,
}
use canebot_projector_repo.Pipeline.Written.{AreWritten, flush_intervals-IsConsistent}
use canebot_projector_repo.Pipeline.Cursors.{IsWithin, IsBeyond, AreInIdOrder, merge_lem, merge-ids}
use canebot_projector_repo.Rows.{SrcActuatorInterval}
use canebot_projector_repo.Pipeline.Actuators.{drain_actuators}
use canebot_projector_repo.Pipeline.Drained.{drain_actuators-IsConsistent}
use canebot_projector_repo.Pipeline.Config.{drain_config}
use canebot_projector_repo.Pipeline.Snapshot.{drain_config_again}
use canebot_projector_repo.Pipeline.Unread.{merge_unread}

flush_intervals-IsConsistent_example :
    let t = run pins (new_tracker severity_for false false) a_drink in
    let (t', r', ok) = flush_intervals a_firmware t empty_replica in
    (ok ≡ true)
    × IsConsistent r'
    × AreWritten a_firmware empty_replica (sort ends_before t.closed) r'
    × (t'.closed ≡ [])
flush_intervals-IsConsistent_example =
    flush_intervals-IsConsistent severity_for a_firmware pins false false a_drink empty_replica
      empty_replica-IsConsistent

abbrev a_row : ℕ → ℕ → ℕ → TimelineItem
a_row at kind src_id = record { at = at; kind = kind; src_id = src_id; input = flush at }

abbrev some_batches : List (List TimelineItem)
some_batches = (a_row 10 0 1 ∷ []) ∷ (a_row 5 1 1 ∷ a_row 20 1 2 ∷ []) ∷ (a_row 30 4 7 ∷ []) ∷ []

merge_test :
    merge 2 some_batches ≡ (a_row 5 1 1 ∷ a_row 10 0 1 ∷ a_row 20 1 2 ∷ [], a_row 30 4 7 ∷ [])
unfolding merge safe_up_to note_batch note_full last_time count is_beyond split comes_before sort
merge_test = refl

merge_example :
    let (applied, left) = merge 2 some_batches in
    let safe = safe_up_to 2 none some_batches in
    Perm (applied ++ left) (concat some_batches)
    × IsSorted comes_before (applied ++ left)
    × All (IsWithin safe) applied
    × All (IsBeyond safe) left
merge_example = merge_lem 2 some_batches

some_batches-AreInIdOrder : AreInIdOrder (concat some_batches)
some_batches-AreInIdOrder = ground arith

merge-ids_example :
    let (applied, left) = merge 2 some_batches in
    All (λ a. All (λ b. a.kind ≡ b.kind → a.src_id ≤ b.src_id) left) applied
merge-ids_example = merge-ids 2 some_batches some_batches-AreInIdOrder

merge_unread_example :
    All
      (λ b.
        (last : ℕ)
        → last_time b ≡ some last
        → 2 ≤ count b
        → All (λ x. x.at ≤ last) (merge 2 some_batches).0)
      some_batches
merge_unread_example = merge_unread 2 some_batches

abbrev a_pulse : SrcActuatorInterval
a_pulse = record {
  id = 1;
  output_id = "Y0.1";
  output_name = "pump";
  order_key = "ORD-1";
  started = 3000000000;
  started_state = "AutoCycle";
  started_step = some 3;
  started_send_ok = none;
  ended = 3500000000;
  ended_state = "AutoCycle";
  ended_step = some 3;
  ended_send_ok = none;
  duration_ms = none;
  fault_raised = none;
  fault_type = "";
  fault_message = "";
  fault_cleared = none;
}

drain_actuators_example :
    let d = drain_actuators 500 one_cycle 0 (none ∷ some a_pulse ∷ []) in
    (d.ok ≡ true) × IsConsistent d.replica
drain_actuators_example =
    drain_actuators-IsConsistent 500 one_cycle 0 (none ∷ some a_pulse ∷ []) one_cycle-IsConsistent

abbrev some_config : List (String × String)
some_config = ("GlassLimit", "200") ∷ ("Mode", "fast") ∷ []

drain_config_example :
    let (t', snapshot) =
      drain_config
        (("GlassLimit", "100") ∷ [])
        1000000000
        (new_tracker severity_for false false)
        some_config in
    drain_config snapshot 2000000000 t' some_config ≡ (t', snapshot)
drain_config_example =
    drain_config_again (("GlassLimit", "100") ∷ []) some_config 1000000000 2000000000
      (new_tracker severity_for false false)
      (drain_config (("GlassLimit", "100") ∷ []) 1000000000 (new_tracker severity_for false false)
        some_config).0
      ((refl, tt), (tt, tt))
