-- ===== src/Rollup/Upkeep.antt =====
-- The passes over the replica keep it consistent, and are never refused.
use canebot_projector_repo.Base.{
  ℕ, ◌+◌, ◌≡◌, refl, String, true, false, List, [], ◌∷◌, ◌++◌, str_eq, sort-All, All-snoc, ◌==◌,
  Bool-cases, inl, inr,
}
use canebot_projector_repo.Writer.Tables.{CipRun, SpanRow, RollupRow, Replica}
use canebot_projector_repo.Writer.Marks.{guard, set_watermark}
use canebot_projector_repo.Writer.Flush.{has_cycle}
use canebot_projector_repo.Writer.Keys.{
  insert_rollup, insert_rollups, AreUniqueKeys, insert_rollup-AreUniqueKeys,
  insert_rollups-AreUniqueKeys,
}
use canebot_projector_repo.Writer.Watermarks.{mark}
use canebot_projector_repo.Writer.Consistency.{HoldAll, IsConsistent}
use canebot_projector_repo.Writer.Upkeep.{mark-other, filter-All}
use canebot_projector_repo.Rollup.Buckets.{hour_ms, day_ms, emit_hourly, emit_daily}
use canebot_projector_repo.Rollup.CipRuns.{cip_run, new_cleans, emit_runs, emit_cip_runs}
use canebot_projector_repo.Rollup.Groups.{
  fault_type_rows, mark_rows, emit_fault_type_rollups, step_rows, emit_step_rollups,
}
use canebot_projector_repo.Rollup.Derived.{
  hour_row, emit_hour_bucket, day_row, emit_day_bucket, earliest, RollupCursors, insert_runs,
  emit_hours, emit_days, emit_rollups, emit_all_derived,
}

set_rollups-IsConsistent :
    (ws : List RollupRow) (marks : List (String × ℕ)) (r : Replica)
    → AreUniqueKeys ws
    → mark "cycles" marks ≡ mark "cycles" r.marks
    → IsConsistent r
    → IsConsistent (record r { rollups = ws; marks = marks })
set_rollups-IsConsistent ws marks r u e h = record {
  orders = h.orders;
  faults = h.faults;
  stamped = rw e h.stamped;
  spans_refer = h.spans_refer;
  dwells_refer = h.dwells_refer;
  faults_refer = h.faults_refer;
  toggles_refer = h.toggles_refer;
  doors_refer = h.doors_refer;
  configs_refer = h.configs_refer;
  pulses_refer = h.pulses_refer;
  runs_refer = h.runs_refer;
  keys = u;
}

mark-mark_rows :
    (table : String) (ts : ℕ) (ws : List RollupRow) (marks : List (String × ℕ))
    → str_eq table "cycles" ≡ false
    → mark "cycles" (mark_rows table ts ws marks) ≡ mark "cycles" marks
unfolding mark_rows
mark-mark_rows table ts [] marks d = refl
mark-mark_rows table ts (w ∷ ws) marks d = mark-other table marks ts d

emit_fault_type_rollups-IsConsistent :
    (grain : String) (start end ts : ℕ) (r : Replica)
    → IsConsistent r
    → IsConsistent (emit_fault_type_rollups grain start end ts r)
unfolding emit_fault_type_rollups
emit_fault_type_rollups-IsConsistent grain start end ts r h =
    let rows = fault_type_rows grain start end ts r.fault_events in
    set_rollups-IsConsistent (insert_rollups r.rollups rows)
      (mark_rows "hourly_fault_counts" ts rows r.marks) r
      (insert_rollups-AreUniqueKeys r.rollups rows h.keys)
      (mark-mark_rows "hourly_fault_counts" ts rows r.marks refl) h

emit_step_rollups-IsConsistent :
    (grain : String) (start end ts : ℕ) (r : Replica)
    → IsConsistent r
    → IsConsistent (emit_step_rollups grain start end ts r)
unfolding emit_step_rollups
emit_step_rollups-IsConsistent grain start end ts r h =
    let rows = step_rows grain start end ts r.step_dwells in
    set_rollups-IsConsistent (insert_rollups r.rollups rows)
      (mark_rows "hourly_step_stats" ts rows r.marks) r
      (insert_rollups-AreUniqueKeys r.rollups rows h.keys)
      (mark-mark_rows "hourly_step_stats" ts rows r.marks refl) h

emit_hour_bucket-IsConsistent :
    (r : Replica) (b : ℕ) → IsConsistent r → IsConsistent (emit_hour_bucket r b)
unfolding emit_hour_bucket
emit_hour_bucket-IsConsistent r b h =
    let ts = guard r.marks "hourly_rollups" (b + hour_ms) in
    emit_step_rollups-IsConsistent "hour" b (b + hour_ms) ts _ (
      emit_fault_type_rollups-IsConsistent "hour" b (b + hour_ms) ts _ (
        set_rollups-IsConsistent (insert_rollup r.rollups (hour_row r b ts))
          (set_watermark r.marks "hourly_rollups" ts) r
          (insert_rollup-AreUniqueKeys r.rollups (hour_row r b ts) h.keys)
          (mark-other "hourly_rollups" r.marks ts refl) h))

emit_day_bucket-IsConsistent :
    (r : Replica) (d : ℕ) → IsConsistent r → IsConsistent (emit_day_bucket r d)
unfolding emit_day_bucket
emit_day_bucket-IsConsistent r d h =
    let ts = guard r.marks "daily_rollups" (d + day_ms) in
    let machine = record r { rollups = insert_rollup r.rollups (day_row r d ts) } in
    let out =
      emit_step_rollups "day" d (d + day_ms) ts
        (emit_fault_type_rollups "day" d (d + day_ms) ts machine) in
    let k = emit_step_rollups-IsConsistent "day" d (d + day_ms) ts _ (
      emit_fault_type_rollups-IsConsistent "day" d (d + day_ms) ts _ (
        set_rollups-IsConsistent (insert_rollup r.rollups (day_row r d ts)) r.marks r
          (insert_rollup-AreUniqueKeys r.rollups (day_row r d ts) h.keys) refl h)) in
    set_rollups-IsConsistent out.rollups (set_watermark out.marks "daily_rollups" ts) out k.keys
      (mark-other "daily_rollups" out.marks ts refl) k

emit_hours-IsConsistent :
    (r : Replica) (bs : List ℕ) → IsConsistent r → IsConsistent (emit_hours r bs)
unfolding emit_hours
emit_hours-IsConsistent r [] h = h
emit_hours-IsConsistent r (b ∷ bs) h =
    emit_hours-IsConsistent (emit_hour_bucket r b) bs (emit_hour_bucket-IsConsistent r b h)

emit_days-IsConsistent :
    (r : Replica) (ds : List ℕ) → IsConsistent r → IsConsistent (emit_days r ds)
unfolding emit_days
emit_days-IsConsistent r [] h = h
emit_days-IsConsistent r (d ∷ ds) h =
    emit_days-IsConsistent (emit_day_bucket r d) ds (emit_day_bucket-IsConsistent r d h)

-- A run of a cycle that is there is inserted.
add_run-IsConsistent :
    (r : Replica) (c : CipRun)
    → has_cycle r.cycles c.order_id ≡ true
    → IsConsistent r
    → IsConsistent (record r {
      cip_runs = r.cip_runs ++ c ∷ [];
      marks = set_watermark r.marks "cip_runs" c.event_ts;
    })
add_run-IsConsistent r c there h = record {
  orders = h.orders;
  faults = h.faults;
  stamped = rw (mark-other "cip_runs" r.marks c.event_ts refl) h.stamped;
  spans_refer = h.spans_refer;
  dwells_refer = h.dwells_refer;
  faults_refer = h.faults_refer;
  toggles_refer = h.toggles_refer;
  doors_refer = h.doors_refer;
  configs_refer = h.configs_refer;
  pulses_refer = h.pulses_refer;
  runs_refer = All-snoc _ r.cip_runs c h.runs_refer there;
  keys = h.keys;
}

insert_runs-IsConsistent :
    (r : Replica) (cs : List CipRun)
    → HoldAll r.cycles (λ (c : CipRun). c.order_id) cs
    → IsConsistent r
    → ((insert_runs r cs).1 ≡ true) × IsConsistent (insert_runs r cs).0
unfolding insert_runs
insert_runs-IsConsistent r [] a h = (refl, h)
insert_runs-IsConsistent r (c ∷ cs) a h = simp a.0 (
    insert_runs-IsConsistent
      (record r {
        cip_runs = r.cip_runs ++ c ∷ [];
        marks = set_watermark r.marks "cip_runs" c.event_ts;
      })
      cs a.1 (add_run-IsConsistent r c a.0 h))

emit_runs-refer :
    (r : Replica) (marks : List (String × ℕ)) (high : ℕ) (ss : List SpanRow)
    → HoldAll r.cycles (λ (s : SpanRow). s.span.order_key) ss
    → HoldAll r.cycles (λ (c : CipRun). c.order_id) (emit_runs r marks high ss).0
unfolding emit_runs cip_run
emit_runs-refer r marks high [] a = tt
emit_runs-refer r marks high (s ∷ ss) a =
    let ts = guard marks "cip_runs" s.span.exited_at_ms in
    (a.0, emit_runs-refer r (set_watermark marks "cip_runs" ts) s.span.exited_at_ms ss a.1)

emit_cip_runs-refer :
    (r : Replica) (last up_to : ℕ)
    → IsConsistent r
    → HoldAll r.cycles (λ (c : CipRun). c.order_id) (emit_cip_runs r last up_to).0
unfolding emit_cip_runs new_cleans
emit_cip_runs-refer r last up_to h =
    emit_runs-refer r r.marks last _
      (sort-All _ _ _ (filter-All _ _ r.state_durations h.spans_refer))

emit_rollups-IsConsistent :
    (up_to : ℕ) (r : Replica) (cursors : RollupCursors)
    → IsConsistent r
    → IsConsistent (emit_rollups up_to r cursors).0
unfolding emit_rollups
emit_rollups-IsConsistent up_to r cursors h =
    let hours = (emit_hourly (earliest r) up_to cursors.hourly).0 in
    let r' = emit_hours r hours in
    let days = (emit_daily (earliest r') up_to cursors.daily).0 in
    emit_days-IsConsistent r' days (emit_hours-IsConsistent r hours h)

-- A pass over a consistent replica, up to any time and from any cursors, succeeds: no run is refused,
-- and the replica stays consistent.
pub emit_all_derived-IsConsistent :
    (up_to : ℕ) (r : Replica) (cursors : RollupCursors)
    → IsConsistent r
    → let (r', cursors', ok) = emit_all_derived up_to r cursors in (ok ≡ true) × IsConsistent r'
unfolding emit_all_derived
emit_all_derived-IsConsistent up_to r cursors h =
    let (runs, marks, high) = emit_cip_runs r cursors.cip up_to in
    let (ok, k) = insert_runs-IsConsistent r runs (emit_cip_runs-refer r cursors.cip up_to h) h in
    elim (Bool-cases (up_to == 0)) [
      | inl z ↦ simp z (refl, h)
      | inr z ↦
          simp (z, ok)
            (
              refl,
              emit_rollups-IsConsistent up_to (insert_runs r runs).0 (record cursors { cip = high })
                  k,
            )
    ]
