-- ===== src/Rollup/CipRuns.antt =====
-- `emitCIPRuns` of cmd/projector/rollup.go: one run for each closed span of Maintenance.
use canebot_projector_repo.Base.{
  ℕ, ◌-◌, String, Bool, false, ◌&&◌, ◌||◌, Option, none, some, List, [], ◌∷◌, filter, length, sort,
  str_eq, ltb, leb, ◌==◌,
}
use canebot_projector_repo.Writer.Tables.{CipRun, Cycle, SpanRow, DwellRow, FaultRow, Replica}
use canebot_projector_repo.Writer.Rows.{date_utc}
use canebot_projector_repo.Writer.Marks.{guard, set_watermark}

-- `cipCompleteStep`
abbrev pub cip_complete_step : ℕ
cip_complete_step = 7

-- `WHERE state = 'Maintenance' AND exited_at_ms > ? AND exited_at_ms <= ?`
unfoldable pub is_new_clean : ℕ → ℕ → SpanRow → Bool
is_new_clean last up_to s =
    str_eq s.span.state "Maintenance"
    && (ltb last s.span.exited_at_ms && leb s.span.exited_at_ms up_to)

-- `ORDER BY exited_at_ms`
unfoldable pub exits_before : SpanRow → SpanRow → Bool
exits_before a b = ltb a.span.exited_at_ms b.span.exited_at_ms

unfoldable pub is_between : ℕ → ℕ → ℕ → Bool
is_between start end ms = leb start ms && ltb ms end

unfoldable pub is_complete : Option ℕ → Bool
is_complete none = false
is_complete (some step) = step == cip_complete_step

-- The two places where the firmware's completion marker can be.
unfoldable pub dwell_completes : ℕ → ℕ → List DwellRow → Bool
unfolding is_between is_complete
dwell_completes start end [] = false
dwell_completes start end (d ∷ ds) =
    (str_eq d.dwell.state "Maintenance"
      && (is_complete d.dwell.step && is_between start end d.dwell.started_at_ms))
    || dwell_completes start end ds

unfoldable pub cycle_completes : ℕ → ℕ → List Cycle → Bool
unfolding is_between is_complete
cycle_completes start end [] = false
cycle_completes start end (c ∷ cs) =
    (str_eq c.result "maintenance"
      && (is_complete c.terminal_step && is_between start end c.started_at_ms))
    || cycle_completes start end cs

unfoldable pub faults_within : ℕ → ℕ → List FaultRow → ℕ
unfolding is_between
faults_within start end faults =
    length (filter (λ (f : FaultRow). is_between start end f.fault.raised_at_ms) faults)

unfoldable pub cip_run : Replica → ℕ → SpanRow → CipRun
unfolding dwell_completes cycle_completes faults_within
cip_run r ts s =
    let start = s.span.entered_at_ms in
    let end = s.span.exited_at_ms in
    record {
      event_ts = ts;
      started_at_ms = start;
      ended_at_ms = end;
      duration_ms = end - start;
      order_id = s.span.order_key;
      completed = dwell_completes start end r.step_dwells || cycle_completes start end r.cycles;
      fault_count = faults_within start end r.fault_events;
      date_utc = date_utc start;
    }

-- The spans of a pass, in order.
unfoldable pub new_cleans : Replica → ℕ → ℕ → List SpanRow
unfolding is_new_clean exits_before sort
new_cleans r last up_to = sort exits_before (filter (is_new_clean last up_to) r.state_durations)

-- The loop over the spans: the runs, the watermarks, and the end of the last one.
unfoldable pub emit_runs :
    Replica → List (String × ℕ) → ℕ → List SpanRow → List CipRun × List (String × ℕ) × ℕ
unfolding cip_run guard set_watermark
emit_runs r marks high [] = ([], marks, high)
emit_runs r marks high (s ∷ ss) =
    let ts = guard marks "cip_runs" s.span.exited_at_ms in
    let (runs, marks', high') =
      emit_runs r (set_watermark marks "cip_runs" ts) s.span.exited_at_ms ss in
    (cip_run r ts s ∷ runs, marks', high')

-- The runs of a pass, the watermarks, and the cursor.
unfoldable pub emit_cip_runs : Replica → ℕ → ℕ → List CipRun × List (String × ℕ) × ℕ
unfolding new_cleans emit_runs
emit_cip_runs r last up_to = emit_runs r r.marks last (new_cleans r last up_to)
