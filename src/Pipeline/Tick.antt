-- ===== src/Pipeline/Tick.antt =====
-- `tick` and `finalFlush` of cmd/projector/main.go, over the projector's whole state.
use canebot_projector_repo.Base.{
  ℕ, String, Bool, true, false, ◌||◌, Option, none, some, List, ltb, ◌==◌, if◌then◌else◌,
}
use canebot_projector_repo.Rows.{unix_milli}
use canebot_projector_repo.Tracker.State.{Tracker}
use canebot_projector_repo.Tracker.Inputs.{flush_open}
use canebot_projector_repo.Writer.Tables.{Replica}
use canebot_projector_repo.Writer.Pulses.{attribute_actuator_pulses}
use canebot_projector_repo.Rollup.Derived.{RollupCursors, emit_all_derived}
use canebot_projector_repo.Pipeline.Intervals.{flush_intervals}
use canebot_projector_repo.Pipeline.Merge.{TimelineItem, merge, apply_items, applied_id, latest_at}
use canebot_projector_repo.Pipeline.Actuators.{drain_actuators}
use canebot_projector_repo.Pipeline.Config.{drain_config}
use canebot_projector_repo.Pipeline.Store.{Store, cursor, set_cursor, mark_alive}
use canebot_projector_repo.Pipeline.Reader.{Source}
use canebot_projector_repo.Pipeline.Collect.{Env, collect}

pub record Projector : Type 0 where
  pub trk : Tracker
  pub rep : Replica
  pub st : Store
  pub last_timeline_ms : ℕ

-- A step leaves a state, and says whether the pass goes on.
abbrev pub Step : Type 0
Step = Projector × Bool

infixl 5 ◌>>=◌
abbrev pub ◌>>=◌ : Step → (Projector → Step) → Step
s >>= f = if s.1 then f s.0 else s

-- `drainConfig`, at the latest point of the timeline that was reached.
unfoldable pub config_step : Source → Option ℕ → Projector → Step
unfolding drain_config
config_step src none p = (p, true)
config_step src (some at) p = elim src.config [
  | none ↦ (p, false)
  | some current ↦
      let (t, snapshot) = drain_config p.st.config_snapshot at p.trk current in
      (record p { trk = t; st = record p.st { config_snapshot = snapshot } }, true)
]

-- `if id > cursors[table] { SetCursor }`, where a row of the table was applied.
unfoldable pub save_cursor : List TimelineItem → Store → ℕ → String → Store
save_cursor applied st kind table = elim (applied_id kind none applied) [
  | none ↦ st
  | some id ↦ if ltb (cursor st table).last_src_id id then set_cursor st table id 0 else st
]

unfoldable pub save_cursors : List TimelineItem → Store → Store
unfolding save_cursor
save_cursors applied st =
    let st0 = save_cursor applied st 0 "orders" in
    let st1 = save_cursor applied st0 1 "fsm_events" in
    let st2 = save_cursor applied st1 2 "fsm_step_runs" in
    let st3 = save_cursor applied st2 3 "faults" in save_cursor applied st3 4 "sensor_input_toggles"

unfoldable pub flush_step : Env → Projector → Step
unfolding flush_intervals
flush_step env p =
    let (t, r, ok) = flush_intervals env.firmware p.trk p.rep in (record p { trk = t; rep = r }, ok)

-- The cursor of a pass that is kept by close time, if the pass has moved it.
unfoldable pub save_closed : Store → String → ℕ → Store
unfolding cursor set_cursor
save_closed st table high =
    if high == (cursor st table).last_closed_ms then st else set_cursor st table 0 high

unfoldable pub actuator_step : Env → Source → Projector → Step
unfolding drain_actuators cursor save_closed
actuator_step env src p = elim src.actuator_output_intervals [
  | none ↦ (p, false)
  | some rows ↦
      let last_closed = (cursor p.st "actuator_output_intervals").last_closed_ms in
      let d = drain_actuators env.batch_size p.rep last_closed rows in
      (record p { rep = d.replica; st = save_closed p.st "actuator_output_intervals" d.high }, d.ok)
]

unfoldable pub attribute_step : Projector → Step
unfolding attribute_actuator_pulses
attribute_step p = (record p { rep = attribute_actuator_pulses p.rep }, true)

unfoldable pub rollup_cursors : Store → RollupCursors
unfolding cursor
rollup_cursors st = record {
  cip = (cursor st "cip_runs").last_closed_ms;
  hourly = (cursor st "hourly_rollups").last_closed_ms;
  daily = (cursor st "daily_rollups").last_closed_ms;
}

unfoldable pub save_rollup_cursors : Store → RollupCursors → Store
unfolding save_closed
save_rollup_cursors st c =
    save_closed (save_closed (save_closed st "cip_runs" c.cip) "hourly_rollups" c.hourly)
      "daily_rollups" c.daily

-- `emitDerived`, with its cursors in the store.
unfoldable pub derived_step : ℕ → Projector → Step
unfolding emit_all_derived rollup_cursors save_rollup_cursors
derived_step up_to p =
    let (r, cursors, ok) = emit_all_derived up_to p.rep (rollup_cursors p.st) in
    (record p { rep = r; st = save_rollup_cursors p.st cursors }, ok)

-- `if !latest.IsZero()`, with the new end of the timeline.
unfoldable pub timeline_step : Option ℕ → Projector → Step
unfolding derived_step
timeline_step none p = (p, true)
timeline_step (some at) p =
    derived_step (unix_milli at) (record p { last_timeline_ms = unix_milli at })

unfoldable pub alive_step : ℕ → Projector → Step
unfolding mark_alive
alive_step now p = (record p { st = mark_alive p.st now }, true)

-- What a tick does behind the rows that it applies.
unfoldable pub finish_tick : Env → Source → ℕ → List TimelineItem → Projector → Step
unfolding config_step save_cursors flush_step actuator_step attribute_step timeline_step alive_step
    latest_at
finish_tick env src now applied p =
    let latest = latest_at none applied in
    config_step src latest p
    >>= (λ q. flush_step env (record q { st = save_cursors applied q.st }))
    >>= actuator_step env src
    >>= attribute_step
    >>= timeline_step latest
    >>= alive_step now

-- A tick at the wall-clock time `now`. Where it fails, what it has done so far remains.
unfoldable pub tick : Env → Source → ℕ → Projector → Step
unfolding collect merge apply_items finish_tick
tick env src now p = elim (collect env src p.trk p.st) [
  | none ↦ (p, false)
  | some batches ↦
      let applied = (merge env.batch_size batches).0 in
      finish_tick env src now applied (record p { trk = apply_items env.firmware.io p.trk applied })
]

-- Where the open interval is closed: at the end of the timeline, if there is one that is not ahead of
-- the clock.
unfoldable pub close_at : ℕ → ℕ → ℕ
close_at now last_timeline_ms =
    if last_timeline_ms == 0 || ltb now last_timeline_ms then now else last_timeline_ms

unfoldable pub final_flush : Env → ℕ → Projector → Step
unfolding close_at flush_open flush_step derived_step
final_flush env now p =
    flush_step env (record p { trk = flush_open p.trk (close_at now p.last_timeline_ms) })
    >>= derived_step p.last_timeline_ms
