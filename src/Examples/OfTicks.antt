-- ===== src/Examples/OfTicks.antt =====
-- The theorems on whole ticks of cmd/projector/main.go, for a source with an order and two events.
use canebot_projector_repo.Base.{
  ◌++◌, ℕ, ◌<◌, ◌≤◌, ◌≡◌, refl, true, false, ◌*◌, ◌-◌, ◌/◌, none, some, List, [], ◌∷◌, All, arith,
  sort, lookup,
}
use canebot_projector_repo.Rows.{SrcFsmEvent}
use canebot_projector_repo.Labels.{severity_for}
use canebot_projector_repo.Tracker.State.{new_tracker}
use canebot_projector_repo.Tracker.Inputs.{order, event}
use canebot_projector_repo.Tracker.Scenarios.{pins, an_event}
use canebot_projector_repo.Tracker.Invariant.Runs.{new_tracker-IsValid}
use canebot_projector_repo.Writer.Tables.{GapRow, empty_replica}
use canebot_projector_repo.Writer.Pruning.{prune}
use canebot_projector_repo.Writer.Consistency.{empty_replica-IsConsistent}
use canebot_projector_repo.Pipeline.Merge.{
  TimelineItem, comes_before, last_time, count, note_full, note_batch, safe_up_to, is_beyond, split,
  merge, concat, apply_items, latest_at,
}
use canebot_projector_repo.Pipeline.Actuators.{take}
use canebot_projector_repo.Pipeline.Cursors.{AreInIdOrder}
use canebot_projector_repo.Pipeline.Once.{Pairs, Differ, AreAbove}
use canebot_projector_repo.Pipeline.Store.{empty_store, cursor}
use canebot_projector_repo.Pipeline.Reader.{
  SourceRow, Source, parsed_rows, query_after, rows_after, order_item, event_item,
}
use canebot_projector_repo.Pipeline.Collect.{Env, batch, step_run_rows, collect}
use canebot_projector_repo.Pipeline.Tick.{Projector, save_cursor, tick, final_flush}
use canebot_projector_repo.Pipeline.Startup.{Settings, start}
use canebot_projector_repo.Pipeline.Sound.{IsSound, is_readable}
use canebot_projector_repo.Pipeline.Ticks.{tick-IsSound}
use canebot_projector_repo.Pipeline.Sessions.{
  Reach, here, next, ticks, prunes, ends, restarts, Reach-IsSound,
}
use canebot_projector_repo.Pipeline.Away.{last_good, IsGap, start-IsGap}
use canebot_projector_repo.Pipeline.Heartbeat.{tick-heartbeat}
use canebot_projector_repo.Pipeline.Collected.{HasAllIds, table_of, collect-once}
use canebot_projector_repo.Pipeline.Failing.{repeat, tick-config_fails, collect-stalls}
use canebot_projector_repo.Examples.Replicas.{a_firmware}

abbrev an_env : Env
an_env = record { firmware = a_firmware; decode = λ s. []; batch_size = 2 }

abbrev some_settings : Settings
some_settings = record {
  severity = severity_for;
  has_step_runs = false;
  has_fault_cols = false;
  interval = 5000000000;
}

abbrev event_row : ℕ → SrcFsmEvent → SourceRow SrcFsmEvent
event_row id e = record { id = id; row = some (record e { id = id }) }

abbrev a_source : Source
a_source = record {
  orders = some (
      record {
        id = 1;
        row =
            some
              (record { id = 1; order_key = "ORD-1"; recipe = 3; quantity = 2; ts = 2000000000 });
      }
      ∷ []);
  fsm_events = some (
      event_row 4 (an_event "" "HomeIdle" 0 1000)
      ∷ event_row 5 (an_event "ORD-1" "AutoCycle" 1 2000)
      ∷ event_row 6 (an_event "ORD-1" "AutoCycle" 2 2500)
      ∷ []);
  faults = some [];
  sensor_input_toggles = some [];
  fsm_step_runs = some [];
  config = some (("Mode", "fast") ∷ []);
  actuator_output_intervals = some [];
}

abbrev a_projector : Projector
a_projector = record {
  trk = new_tracker severity_for false false;
  rep = empty_replica;
  st = empty_store;
  last_timeline_ms = 0;
}

a_projector-IsSound : IsSound severity_for a_projector
a_projector-IsSound = record {
  trk = new_tracker-IsValid severity_for false false;
  rep = empty_replica-IsConsistent;
}

tick-IsSound_example :
    let (p', ok) = tick an_env a_source 9000 a_projector in
    IsSound severity_for p' × (is_readable a_source ≡ true → ok ≡ true)
tick-IsSound_example =
    tick-IsSound severity_for an_env a_source 9000 a_projector a_projector-IsSound

abbrev ticked : Projector
ticked = (tick an_env a_source 9000 a_projector).0

Reach-IsSound_example : IsSound severity_for (start some_settings 60000 ticked.rep ticked.st)
Reach-IsSound_example =
    Reach-IsSound {env = an_env} {severity = severity_for} {p = a_projector} a_projector-IsSound
      (next (next here (ticks a_source 9000 refl)) (restarts some_settings 60000 refl refl))

tick-heartbeat_example :
    let (p', ok) = tick an_env a_source 9000 a_projector in
    (ok ≡ true → p'.st.last_alive_ms ≡ some 9000)
    × (ok ≡ false → p'.st.last_alive_ms ≡ a_projector.st.last_alive_ms)
tick-heartbeat_example = tick-heartbeat an_env a_source 9000 a_projector

-- A tick, a pass at the end and a pruning.
abbrev pruned : Projector
pruned =
    let ended = (final_flush an_env 9500 ticked).0 in record ended { rep = (prune 100 ended.rep).0 }

abbrev some_moves : Reach an_env severity_for a_projector pruned
some_moves = next (next (next here (ticks a_source 9000 refl)) (ends 9500 refl)) (prunes 100 refl)

start-IsGap_example :
    let after = (start some_settings 60000 pruned.rep pruned.st).rep in
    ((m : ℕ)
      → last_good some_moves ≡ some m
      → 0 < m
      → 2 * some_settings.interval / 1000000 < 60000 - m
      → (g : GapRow) × (after.gaps ≡ pruned.rep.gaps ++ g ∷ []) × IsGap m 60000 g)
    × ((m : ℕ)
        → last_good some_moves ≡ some m
        → 60000 - m ≤ 2 * some_settings.interval / 1000000
        → after ≡ pruned.rep)
    × (last_good some_moves ≡ none → after ≡ pruned.rep)
start-IsGap_example = start-IsGap some_moves some_settings 60000

-- What the first tick reads: of the events, two.
abbrev first_batches : List (List TimelineItem)
first_batches =
    (record {
      at = 2000000000;
      kind = 0;
      src_id = 1;
      input =
          order (record { id = 1; order_key = "ORD-1"; recipe = 3; quantity = 2; ts = 2000000000 });
    }
      ∷ [])
    ∷ (record {
      at = 1000000000;
      kind = 1;
      src_id = 4;
      input = event (record (an_event "" "HomeIdle" 0 1000) { id = 4 });
    }
        ∷ record {
          at = 2000000000;
          kind = 1;
          src_id = 5;
          input = event (record (an_event "ORD-1" "AutoCycle" 1 2000) { id = 5 });
        }
        ∷ [])
    ∷ []
    ∷ []
    ∷ []
    ∷ []

first-collect : collect an_env a_source a_projector.trk a_projector.st ≡ some first_batches
unfolding collect batch rows_after query_after take parsed_rows cursor lookup order_item event_item
    step_run_rows new_tracker
first-collect = refl

a_source-HasAllIds : HasAllIds a_source
a_source-HasAllIds = record {
  orders = (refl, tt);
  events = (refl, (refl, (refl, tt)));
  faults = tt;
  toggles = tt;
  runs = tt;
}

first-AreInIdOrder : AreInIdOrder (concat first_batches)
first-AreInIdOrder = ground arith

first-Differ : Pairs Differ (concat first_batches)
first-Differ = ground arith

collect-once_example :
    let (applied, left) = merge 2 first_batches in
    let c = (cursor empty_store (table_of 1)).last_src_id in
    let c' = (cursor (save_cursor applied empty_store 1 (table_of 1)) (table_of 1)).last_src_id in
    (c ≤ c') × All (λ x. x.kind ≡ 1 → (c < x.src_id) × (x.src_id ≤ c')) applied × AreAbove 1 c' left
collect-once_example =
    collect-once an_env a_source a_projector.trk empty_store first_batches 1 first-collect
      a_source-HasAllIds first-AreInIdOrder first-Differ

-- The same source, of which the config cannot be read.
abbrev without_config : Source
without_config = record a_source { config = none }

first_latest : latest_at none (merge 2 first_batches).0 ≡ some 2000000000
unfolding latest_at merge safe_up_to note_batch note_full last_time count is_beyond split
    comes_before sort
first_latest = refl

without_config-collect :
    collect an_env without_config a_projector.trk a_projector.st ≡ some first_batches
unfolding collect batch rows_after query_after take parsed_rows cursor lookup order_item event_item
    step_run_rows new_tracker
without_config-collect = refl

tick-config_fails_example :
    let applied = (merge 2 first_batches).0 in
    let q = repeat 2 (λ (u : Projector). (tick an_env without_config 9000 u).0) a_projector in
    (q ≡ record a_projector { trk = repeat 2 (λ t. apply_items pins t applied) a_projector.trk })
    × ((tick an_env without_config 9000 q).1 ≡ false)
tick-config_fails_example =
    tick-config_fails an_env without_config 9000 a_projector first_batches 2000000000 2
      without_config-collect first_latest refl refl

-- A source with two events, of which no timestamp can be parsed.
abbrev unparsed_events : List (SourceRow SrcFsmEvent)
unparsed_events = record { id = 4; row = none } ∷ record { id = 5; row = none } ∷ []

abbrev unparsed : Source
unparsed = record a_source { orders = some []; fsm_events = some unparsed_events }

unparsed-collect :
    collect an_env unparsed a_projector.trk empty_store ≡ some ([] ∷ [] ∷ [] ∷ [] ∷ [] ∷ [])
unfolding collect batch rows_after query_after take parsed_rows cursor lookup step_run_rows
    new_tracker
unparsed-collect = refl

collect-stalls_example :
    save_cursor (merge 2 ([] ∷ [] ∷ [] ∷ [] ∷ [] ∷ [])).0 empty_store 1 "fsm_events" ≡ empty_store
unfolding query_after take cursor lookup
collect-stalls_example =
    collect-stalls an_env a_projector.trk empty_store unparsed unparsed_events
      ([] ∷ [] ∷ [] ∷ [] ∷ [] ∷ []) refl (refl, (refl, tt)) unparsed-collect
