-- ===== src/Tracker/Ensure.antt =====
-- Opening intervals: `nextSynthKey`, `ensureInterval` and `resetPerInterval` of
-- cmd/projector/tracker.go.
use canebot_projector_repo.Base.{
  ℕ, suc, ◌-◌, ◌%◌, String, Bool, true, false, not, ◌&&◌, none, some, [], str_eq, leb, ltb,
  if◌then◌else◌, show, show_padded, ◌&◌,
}
use canebot_projector_repo.Labels.{result_for_state, synth_prefix, max_interval_ms}
use canebot_projector_repo.Tracker.State.{Interval, new_interval, Tracker}
use canebot_projector_repo.Tracker.Close.{close_interval}

-- `nextSynthKey` raises the counter first: `counter` is its raised value.
unfoldable pub synth_key : String → ℕ → ℕ → String
synth_key result at_ms counter =
    synth_prefix result & ("-" & (show at_ms & show_padded (counter % 10000)))

-- The difference is negative where time has gone back, and is then below the cap like the 0 here.
unfoldable pub is_overdue : Interval → ℕ → Bool
is_overdue iv at_ms = ltb 0 max_interval_ms && leb max_interval_ms (at_ms - iv.started_ms)

-- The result of an interval that is closed because it has been open too long, or at shutdown.
unfoldable pub forced_result : Interval → String
forced_result iv = if iv.is_production then "aborted" else iv.result

unfoldable pub close_overdue : Tracker → ℕ → Tracker
close_overdue t at_ms = elim t.current [
  | none ↦ t
  | some iv ↦ if is_overdue iv at_ms then close_interval t at_ms (forced_result iv) else t
]

unfoldable pub reset_per_interval : Tracker → Tracker
reset_per_interval t = record t { dwell_seq = [] }

unfoldable pub open_interval : Tracker → Interval → Tracker
open_interval t iv = reset_per_interval (record t { current = some iv })

-- The interval is open and is that of the order.
unfoldable pub is_current_order : Tracker → String → Bool
is_current_order t order_key = elim t.current [
  | none ↦ false
  | some iv ↦ str_eq iv.order_key order_key
]

-- The interval is open, is synthetic and has the wanted result.
unfoldable pub is_current_kind : Tracker → String → Bool
is_current_kind t want = elim t.current [
  | none ↦ false
  | some iv ↦ not iv.is_production && str_eq iv.result want
]

unfoldable pub ensure_order : Tracker → String → ℕ → Tracker
ensure_order t order_key at_ms =
    if is_current_order t order_key
    then t
    else open_interval (close_interval t at_ms "") (new_interval order_key true at_ms "aborted")

unfoldable pub open_synthetic : Tracker → String → ℕ → Tracker
open_synthetic t want at_ms =
    let n = suc t.synth_counter in
    open_interval (record t { synth_counter = n })
      (new_interval (synth_key want at_ms n) false at_ms want)

unfoldable pub ensure_kind : Tracker → String → ℕ → Tracker
ensure_kind t want at_ms =
    if is_current_kind t want then t else open_synthetic (close_interval t at_ms "") want at_ms

unfoldable pub ensure_interval : Tracker → String → String → ℕ → Tracker
ensure_interval t order_key state at_ms =
    let t' = close_overdue t at_ms in
    if str_eq order_key ""
    then ensure_kind t' (result_for_state state) at_ms
    else ensure_order t' order_key at_ms
