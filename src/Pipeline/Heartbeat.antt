-- ===== src/Pipeline/Heartbeat.antt =====
-- The heartbeat: when it beats, and what a start makes of it.
use canebot_projector_repo.Base.{
  ℕ, ◌≡◌, refl, ◌∙◌, ap, String, true, false, Option, none, some, List, arith, Option-cases, inl,
  inr,
}
use canebot_projector_repo.Rows.{unix_milli}
use canebot_projector_repo.Pipeline.Merge.{TimelineItem, merge, apply_items, latest_at}
use canebot_projector_repo.Pipeline.Store.{Store, set_cursor, last_alive, mark_alive}
use canebot_projector_repo.Pipeline.Reader.{Source}
use canebot_projector_repo.Pipeline.Collect.{Env, collect}
use canebot_projector_repo.Pipeline.Tick.{
  Projector, Step, ◌>>=◌, config_step, save_cursor, save_cursors, flush_step, save_closed,
  actuator_step, attribute_step, save_rollup_cursors, derived_step, timeline_step, alive_step,
  finish_tick, tick,
}

save_cursor-alive :
    (applied : List TimelineItem) (st : Store) (kind : ℕ) (table : String)
    → (save_cursor applied st kind table).last_alive_ms ≡ st.last_alive_ms
unfolding save_cursor set_cursor
save_cursor-alive applied st kind table = ground arith

save_cursors-alive :
    (applied : List TimelineItem) (st : Store)
    → (save_cursors applied st).last_alive_ms ≡ st.last_alive_ms
unfolding save_cursors
save_cursors-alive applied st =
    save_cursor-alive applied _ 4 "sensor_input_toggles"
    ∙ save_cursor-alive applied _ 3 "faults"
    ∙ save_cursor-alive applied _ 2 "fsm_step_runs"
    ∙ save_cursor-alive applied _ 1 "fsm_events"
    ∙ save_cursor-alive applied st 0 "orders"

save_closed-alive :
    (st : Store) (table : String) (high : ℕ)
    → (save_closed st table high).last_alive_ms ≡ st.last_alive_ms
unfolding save_closed set_cursor
save_closed-alive st table high = ground arith

-- The heartbeat of the state behind a step.
abbrev pub alive : Step → Option ℕ
alive s = s.0.st.last_alive_ms

config_step-alive :
    (src : Source) (latest : Option ℕ) (p : Projector)
    → alive (config_step src latest p) ≡ p.st.last_alive_ms
unfolding config_step
config_step-alive src none p = refl
config_step-alive src (some at) p = elim (Option-cases src.config) [
  | inl e ↦ rw (e, config_step) refl
  | inr (m, e) ↦ rw (e, config_step) refl
]

actuator_step-alive :
    (env : Env) (src : Source) (p : Projector)
    → alive (actuator_step env src p) ≡ p.st.last_alive_ms
unfolding actuator_step
actuator_step-alive env src p = elim (Option-cases src.actuator_output_intervals) [
  | inl e ↦ rw (e, actuator_step) refl
  | inr (rows, e) ↦ rw (e, actuator_step) (save_closed-alive p.st "actuator_output_intervals" _)
]

pub derived_step-alive :
    (up_to : ℕ) (p : Projector) → alive (derived_step up_to p) ≡ p.st.last_alive_ms
unfolding derived_step save_rollup_cursors
derived_step-alive up_to p =
    save_closed-alive _ "daily_rollups" _
    ∙ save_closed-alive _ "hourly_rollups" _
    ∙ save_closed-alive p.st "cip_runs" _

timeline_step-alive :
    (latest : Option ℕ) (p : Projector) → alive (timeline_step latest p) ≡ p.st.last_alive_ms
unfolding timeline_step
timeline_step-alive none p = refl
timeline_step-alive (some at) p =
    derived_step-alive (unix_milli at) (record p { last_timeline_ms = unix_milli at })

pub bind-alive :
    (at : Option ℕ) (s : Step) (f : Projector → Step)
    → alive s ≡ at
    → ((p : Projector) → alive (f p) ≡ p.st.last_alive_ms)
    → alive (s >>= f) ≡ at
bind-alive at (p, true) f e k = k p ∙ e
bind-alive at (p, false) f e k = e

-- A tick without its last step leaves the heartbeat.
body-alive :
    (env : Env) (src : Source) (applied : List TimelineItem) (p : Projector)
    → alive (
        config_step src (latest_at none applied) p
        >>= (λ q. flush_step env (record q { st = save_cursors applied q.st }))
        >>= actuator_step env src
        >>= attribute_step
        >>= timeline_step (latest_at none applied))
      ≡ p.st.last_alive_ms
unfolding flush_step attribute_step
body-alive env src applied p =
    let at = p.st.last_alive_ms in
    let latest = latest_at none applied in
    let flush = λ (q : Projector). flush_step env (record q { st = save_cursors applied q.st }) in
    let s1 = config_step src latest p in
    let s2 = s1 >>= flush in
    let s3 = s2 >>= actuator_step env src in
    let s4 = s3 >>= attribute_step in
    let e2 =
      bind-alive at s1 flush (config_step-alive src latest p)
        (λ q. save_cursors-alive applied q.st) in
    let e3 = bind-alive at s2 (actuator_step env src) e2 (actuator_step-alive env src) in
    let e4 = bind-alive at s3 attribute_step e3 (λ q. refl) in
    bind-alive at s4 (timeline_step latest) e4 (timeline_step-alive latest)

-- The heartbeat behind a step: `now` where it succeeded, and `at` where it failed.
abbrev Beats : ℕ → Option ℕ → Step → Type 0
Beats now at s = (s.1 ≡ true → alive s ≡ some now) × (s.1 ≡ false → alive s ≡ at)

beat : (now : ℕ) (at : Option ℕ) (s : Step) → alive s ≡ at → Beats now at (s >>= alive_step now)
unfolding alive_step mark_alive
beat now at (p, true) e = (λ o. refl, λ o. cc)
beat now at (p, false) e = (λ o. cc, λ o. e)

-- A tick that succeeds leaves its own time as the heartbeat, and one that fails leaves the heartbeat
-- that was there.
pub tick-heartbeat :
    (env : Env) (src : Source) (now : ℕ) (p : Projector)
    → let (p', ok) = tick env src now p in
      (ok ≡ true → p'.st.last_alive_ms ≡ some now)
      × (ok ≡ false → p'.st.last_alive_ms ≡ p.st.last_alive_ms)
unfolding tick finish_tick
tick-heartbeat env src now p = elim (Option-cases (collect env src p.trk p.st)) [
  | inl e ↦ rw (e, tick) (λ o. cc, λ o. refl)
  | inr (batches, e) ↦
      let applied = (merge env.batch_size batches).0 in
      let q = record p { trk = apply_items env.firmware.io p.trk applied } in
      rw (e, tick) (beat now p.st.last_alive_ms _ (body-alive env src applied q))
]

pub last_alive-some : (st : Store) (now : ℕ) → st.last_alive_ms ≡ some now → last_alive st ≡ now
unfolding last_alive
last_alive-some st now e = ap {B = ℕ} (λ (o : Option ℕ). elim o [ none ↦ 0 | some ms ↦ ms ]) e
