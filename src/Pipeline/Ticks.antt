-- ===== src/Pipeline/Ticks.antt =====
-- A tick, and the pass at the end, keep the whole state sound, and fail only where a read fails.
use canebot_projector_repo.Base.{
  ℕ, ◌≡◌, refl, String, true, false, Option, none, some, List, [], arith, Option-cases, inl, inr,
}
use canebot_projector_repo.Rows.{unix_milli}
use canebot_projector_repo.Tracker.State.{Tracker}
use canebot_projector_repo.Tracker.Inputs.{flush, apply}
use canebot_projector_repo.Tracker.Invariant.Runs.{apply-IsValid}
use canebot_projector_repo.Rollup.Upkeep.{emit_all_derived-IsConsistent}
use canebot_projector_repo.Pipeline.Drained.{drain_actuators-IsConsistent}
use canebot_projector_repo.Pipeline.Merge.{TimelineItem, merge, apply_items, latest_at}
use canebot_projector_repo.Pipeline.Store.{Store, cursor}
use canebot_projector_repo.Pipeline.Reader.{Source}
use canebot_projector_repo.Pipeline.Collect.{Env, step_run_rows, collect}
use canebot_projector_repo.Pipeline.Tick.{
  Projector, config_step, save_cursors, flush_step, actuator_step, attribute_step, rollup_cursors,
  derived_step, timeline_step, alive_step, finish_tick, tick, close_at, final_flush,
}
use canebot_projector_repo.Pipeline.Sound.{
  IsSound, is_readable, IsFine, attribute-IsConsistent, apply_items-IsValid, drain_config-IsValid,
  flush_step-IsFine, bind-IsFine,
}

-- The batches are not there only where a read fails.
collect-none :
    (env : Env) (src : Source) (t : Tracker) (st : Store)
    → collect env src t st ≡ none
    → is_readable src ≡ false
unfolding collect step_run_rows
collect-none env src t st e = ground arith

module _ (severity : String → String) (env : Env) (src : Source) where
  config_step-IsFine :
      (latest : Option ℕ) (p : Projector)
      → IsSound severity p
      → IsFine severity src (config_step src latest p)
  unfolding config_step
  config_step-IsFine none p h = (h, λ r. refl)
  config_step-IsFine (some at) p h = elim (Option-cases src.config) [
    | inl e ↦ rw (e, config_step) (h, λ r. ground (arith, r, e))
    | inr (current, e) ↦
        rw (e, config_step)
          (
            record {
              trk =
                  drain_config-IsValid severity env.firmware.io p.st.config_snapshot at p.trk
                    current h.trk;
              rep = h.rep;
            },
            λ r. refl,
          )
  ]

  actuator_step-IsFine :
      (p : Projector) → IsSound severity p → IsFine severity src (actuator_step env src p)
  unfolding actuator_step
  actuator_step-IsFine p h = elim (Option-cases src.actuator_output_intervals) [
    | inl e ↦ rw (e, actuator_step) (h, λ r. ground (arith, r, e))
    | inr (rows, e) ↦
        let d =
          drain_actuators-IsConsistent env.batch_size p.rep
            (cursor p.st "actuator_output_intervals").last_closed_ms rows h.rep in
        rw (e, actuator_step) (record { trk = h.trk; rep = d.1 }, λ r. d.0)
  ]

  attribute_step-IsFine :
      (p : Projector) → IsSound severity p → IsFine severity src (attribute_step p)
  unfolding attribute_step
  attribute_step-IsFine p h =
      (record { trk = h.trk; rep = attribute-IsConsistent p.rep h.rep }, λ r. refl)

  derived_step-IsFine :
      (up_to : ℕ) (p : Projector) → IsSound severity p → IsFine severity src (derived_step up_to p)
  unfolding derived_step
  derived_step-IsFine up_to p h =
      let d = emit_all_derived-IsConsistent up_to p.rep (rollup_cursors p.st) h.rep in
      (record { trk = h.trk; rep = d.1 }, λ r. d.0)

  timeline_step-IsFine :
      (latest : Option ℕ) (p : Projector)
      → IsSound severity p
      → IsFine severity src (timeline_step latest p)
  unfolding timeline_step
  timeline_step-IsFine none p h = (h, λ r. refl)
  timeline_step-IsFine (some at) p h =
      derived_step-IsFine (unix_milli at) (record p { last_timeline_ms = unix_milli at })
        (record { trk = h.trk; rep = h.rep })

  finish_tick-IsFine :
      (now : ℕ) (applied : List TimelineItem) (p : Projector)
      → IsSound severity p
      → IsFine severity src (finish_tick env src now applied p)
  unfolding finish_tick alive_step
  finish_tick-IsFine now applied p h =
      bind-IsFine severity src _ (alive_step now)
        (bind-IsFine severity src _ (timeline_step (latest_at none applied))
          (bind-IsFine severity src _ attribute_step
            (bind-IsFine severity src _ (actuator_step env src)
              (bind-IsFine severity src _
                (λ q. flush_step env (record q { st = save_cursors applied q.st }))
                (config_step-IsFine (latest_at none applied) p h)
                (λ q k.
                  flush_step-IsFine severity env src (record q { st = save_cursors applied q.st })
                    (record { trk = k.trk; rep = k.rep })))
              actuator_step-IsFine)
            attribute_step-IsFine)
          (timeline_step-IsFine (latest_at none applied)))
        (λ q k. (record { trk = k.trk; rep = k.rep }, λ r. refl))

  -- A tick keeps the tracker valid and the replica consistent, whatever the source holds and also where
  -- it fails; and it succeeds where every read of the source does: no row, interval, pulse or run is
  -- refused.
  pub tick-IsSound :
      (now : ℕ) (p : Projector)
      → IsSound severity p
      → let (p', ok) = tick env src now p in
        IsSound severity p' × (is_readable src ≡ true → ok ≡ true)
  unfolding tick
  tick-IsSound now p h = elim (Option-cases (collect env src p.trk p.st)) [
    | inl e ↦ rw (e, tick) (h, λ r. ground (arith, r, collect-none env src p.trk p.st e))
    | inr (batches, e) ↦
        let applied = (merge env.batch_size batches).0 in
        rw (e, tick)
          (finish_tick-IsFine now applied
            (record p { trk = apply_items env.firmware.io p.trk applied })
            (record {
              trk = apply_items-IsValid severity env.firmware.io p.trk applied h.trk;
              rep = h.rep;
            }))
  ]

-- A source that can be read, and is empty.
abbrev quiet : Source
quiet = record {
  orders = some [];
  fsm_events = some [];
  faults = some [];
  sensor_input_toggles = some [];
  fsm_step_runs = some [];
  config = some [];
  actuator_output_intervals = some [];
}

-- The pass at the end succeeds, and keeps the tracker valid and the replica consistent.
pub final_flush-IsSound :
    (severity : String → String) (env : Env) (now : ℕ) (p : Projector)
    → IsSound severity p
    → let (p', ok) = final_flush env now p in (ok ≡ true) × IsSound severity p'
unfolding final_flush apply
final_flush-IsSound severity env now p h =
    let f =
      bind-IsFine severity quiet _ (derived_step p.last_timeline_ms)
        (flush_step-IsFine severity env quiet _ (record {
          trk =
              apply-IsValid severity env.firmware.io p.trk (flush (close_at now p.last_timeline_ms))
                h.trk;
          rep = h.rep;
        }))
        (derived_step-IsFine severity env quiet p.last_timeline_ms) in
    (f.1 refl, f.0)
