-- ===== src/Writer/Flush.antt =====
-- `FlushInterval` of cmd/projector/writer.go: one transaction for an interval and its children.
use canebot_projector_repo.Base.{
  ℕ, String, Bool, false, ◌&&◌, ◌||◌, Option, none, some, List, [], ◌∷◌, ◌++◌, map, str_eq, is_some,
  ltb, if◌then◌else◌,
}
use canebot_projector_repo.Rows.{
  OutStateDuration, OutStepDwell, OutSensorToggle, OutDoorEvent, OutConfigChange,
}
use canebot_projector_repo.Tracker.State.{Interval}
use canebot_projector_repo.Writer.Tables.{
  Cycle, SpanRow, DwellRow, FaultRow, ToggleRow, DoorRow, ConfigRow, ActuatorRow, Replica,
}
use canebot_projector_repo.Writer.Marks.{set_watermark, set_watermarks, guard}
use canebot_projector_repo.Writer.Rows.{
  Firmware, cycle_row, span_row, dwell_row, fault_ts, fault_event_row, toggle_row, door_row,
  config_row,
}

-- `COALESCE(a, b)`
unfoldable pub coalesce : Option ℕ → Option ℕ → Option ℕ
coalesce none b = b
coalesce (some a) b = some a

-- `INSERT INTO cycles ... ON CONFLICT(order_id) DO UPDATE`
unfoldable pub upsert_cycle : Cycle → List Cycle → List Cycle
unfolding coalesce
upsert_cycle new [] = new ∷ []
upsert_cycle new (c ∷ cs) =
    if str_eq c.order_id new.order_id
    then record c {
      recipe_id = coalesce c.recipe_id new.recipe_id;
      glass_count = coalesce c.glass_count new.glass_count;
    }
      ∷ cs
    else c ∷ upsert_cycle new cs

-- `UPDATE ... SET recipe_id = ? WHERE order_id = ? AND recipe_id IS NULL`
unfoldable pub fill_recipe : Interval → String → Option ℕ → Option ℕ
fill_recipe iv order_id recipe_id =
    if str_eq order_id iv.order_key && (is_some iv.recipe_id || is_some iv.glass_count)
    then coalesce recipe_id iv.recipe_id
    else recipe_id

unfoldable pub fill_recipes : Interval → Replica → Replica
unfolding fill_recipe
fill_recipes iv r = record r {
  step_dwells =
      map (λ (d : DwellRow). record d { recipe_id = fill_recipe iv d.dwell.order_key d.recipe_id })
        r.step_dwells;
  fault_events =
      map (λ (f : FaultRow). record f { recipe_id = fill_recipe iv f.fault.order_key f.recipe_id })
        r.fault_events;
  actuator_intervals =
      map
        (λ (a : ActuatorRow). record a { recipe_id = fill_recipe iv a.pulse.order_key a.recipe_id })
        r.actuator_intervals;
  door_events =
      map (λ (d : DoorRow). record d { recipe_id = fill_recipe iv d.door.order_key d.recipe_id })
        r.door_events;
}

-- The foreign key: a row may only name a cycle that is there.
unfoldable pub has_cycle : List Cycle → String → Bool
has_cycle [] order_id = false
has_cycle (c ∷ cs) order_id = str_eq c.order_id order_id || has_cycle cs order_id

-- Inserts the rows, of which `key` is the cycle's; none where the foreign key of one does not hold.
unfoldable pub insert_rows {ℓ} :
    {A : Type ℓ} → (A → String) → List Cycle → List A → List A → Option (List A)
unfolding has_cycle
insert_rows key cycles table [] = some table
insert_rows key cycles table (x ∷ xs) =
    let rest = insert_rows key cycles (table ++ x ∷ []) xs in
    if has_cycle cycles (key x) then rest else none

unfoldable pub has_fault : String → List FaultRow → Bool
has_fault key [] = false
has_fault key (f ∷ fs) = str_eq f.fault.fault_key key || has_fault key fs

-- The same of faults, with `ON CONFLICT(fault_key) DO NOTHING`.
unfoldable pub insert_faults : List Cycle → List FaultRow → List FaultRow → Option (List FaultRow)
unfolding has_cycle has_fault
insert_faults cycles table [] = some table
insert_faults cycles table (f ∷ fs) =
    let skipped = insert_faults cycles table fs in
    let rest = insert_faults cycles (table ++ f ∷ []) fs in
    if has_fault f.fault.fault_key table
    then skipped
    else if has_cycle cycles f.fault.order_key
    then rest
    else none

-- `track`: the latest timestamp of the rows.
unfoldable pub latest : ℕ → List ℕ → ℕ
latest ts [] = ts
latest ts (t ∷ ts') = latest (if ltb ts t then t else ts) ts'

unfoldable pub row_times : Interval → List ℕ
unfolding fault_ts
row_times iv =
    map (λ (s : OutStateDuration). s.exited_at_ms) iv.state_durations
    ++ map (λ (d : OutStepDwell). d.ended_at_ms) iv.step_dwells
    ++ map fault_ts iv.faults
    ++ map (λ (s : OutSensorToggle). s.event_at_ms) iv.toggles
    ++ map (λ (d : OutDoorEvent). d.closed_at_ms) iv.door_events
    ++ map (λ (c : OutConfigChange). c.changed_at_ms) iv.configs

infixl 5 ◌>>=◌
abbrev ◌>>=◌ {ℓ κ} : {A : Type ℓ} {B : Type κ} → Option A → (A → Option B) → Option B
none >>= f = none
some a >>= f = f a

-- The cycle is inserted, and the recipe filled in.
unfoldable pub begin_flush : Interval → Replica → Replica
unfolding cycle_row upsert_cycle fill_recipes guard
begin_flush iv r = fill_recipes iv (record r {
  cycles = upsert_cycle (cycle_row (guard r.marks "cycles" iv.ended_ms) iv) r.cycles;
})

abbrev pub child_tables : List String
child_tables =
    "state_durations" ∷ "step_dwells" ∷ "fault_events" ∷ "sensor_toggles" ∷ "config_history"
    ∷ "door_events" ∷ []

unfoldable pub flush_marks : Interval → List (String × ℕ) → List (String × ℕ)
unfolding guard set_watermark set_watermarks latest row_times
flush_marks iv marks =
    let ts = guard marks "cycles" iv.ended_ms in
    set_watermarks child_tables (latest ts (row_times iv)) (set_watermark marks "cycles" ts)

-- The replica behind the commit, or none where a row is refused: then the transaction is rolled back.
unfoldable pub flush_interval : Firmware → Replica → Interval → Option Replica
unfolding begin_flush insert_rows insert_faults flush_marks span_row dwell_row fault_event_row
    toggle_row door_row config_row
flush_interval firmware r iv = do
  let b = begin_flush iv r
  spans ←
      insert_rows (λ (s : SpanRow). s.span.order_key) b.cycles b.state_durations
        (map (span_row iv) iv.state_durations)
  dwells ←
      insert_rows (λ (d : DwellRow). d.dwell.order_key) b.cycles b.step_dwells
        (map (dwell_row firmware iv) iv.step_dwells)
  faults ←
      insert_faults b.cycles b.fault_events
        (map (fault_event_row firmware.description iv) iv.faults)
  toggles ←
      insert_rows (λ (s : ToggleRow). s.toggle.order_key) b.cycles b.sensor_toggles
        (map (toggle_row iv) iv.toggles)
  doors ←
      insert_rows (λ (d : DoorRow). d.door.order_key) b.cycles b.door_events
        (map (door_row iv) iv.door_events)
  configs ←
      insert_rows (λ (c : ConfigRow). c.config.order_key) b.cycles b.config_history
        (map config_row iv.configs)
  some (record b {
    state_durations = spans;
    step_dwells = dwells;
    fault_events = faults;
    sensor_toggles = toggles;
    door_events = doors;
    config_history = configs;
    marks = flush_marks iv r.marks;
  })
