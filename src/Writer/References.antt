-- ===== src/Writer/References.antt =====
-- A flush keeps the replica consistent, and is never refused a closed interval.
use canebot_projector_repo.Base.{
  ◌≡◌, refl, ap, ◌∙◌, String, true, false, some, [], ◌∷◌, ◌++◌, map, All-append,
}
use canebot_projector_repo.Tracker.State.{Interval}
use canebot_projector_repo.Tracker.Invariant.Defs.{IsClosed}
use canebot_projector_repo.Writer.Tables.{Cycle, DwellRow, FaultRow, DoorRow, Replica}
use canebot_projector_repo.Writer.Marks.{guard}
use canebot_projector_repo.Writer.Rows.{
  Firmware, cycle_row, span_row, dwell_row, fault_event_row, toggle_row, door_row, config_row,
}
use canebot_projector_repo.Writer.Flush.{
  upsert_cycle, fill_recipe, fill_recipes, has_cycle, begin_flush, flush_marks, flush_interval,
}
use canebot_projector_repo.Writer.Inserting.{
  IsUnique, AreInserted, insert_rows-append, insert_faults-some, upsert_cycle-new, refreshed,
  upsert_cycle-known,
}
use canebot_projector_repo.Writer.Consistency.{
  IsConsistent, HoldAll-key, map-key, begin_flush-IsConsistent, begin_flush-has_cycle,
}

begin_flush-spans :
    (iv : Interval) (r : Replica) → (begin_flush iv r).state_durations ≡ r.state_durations
unfolding begin_flush fill_recipes
begin_flush-spans iv r = refl

begin_flush-toggles :
    (iv : Interval) (r : Replica) → (begin_flush iv r).sensor_toggles ≡ r.sensor_toggles
unfolding begin_flush fill_recipes
begin_flush-toggles iv r = refl

begin_flush-configs :
    (iv : Interval) (r : Replica) → (begin_flush iv r).config_history ≡ r.config_history
unfolding begin_flush fill_recipes
begin_flush-configs iv r = refl

-- The cycle that a flush writes.
abbrev pub written_cycle : Replica → Interval → Cycle
written_cycle r iv = cycle_row (guard r.marks "cycles" iv.ended_ms) iv

-- What the replica holds behind a flush. The interval's cycle is a new row if its order had none, and
-- otherwise it gives that row the recipe and the count of glasses where these are missing. Behind the
-- rows of before, in which the recipe is filled in, stand the interval's rows; of its faults those
-- whose key is not there yet.
pub record IsWritten (firmware : Firmware) (r : Replica) (iv : Interval) (out : Replica)
    : Type 0 where
  pub new_cycle :
      has_cycle r.cycles iv.order_key ≡ false → out.cycles ≡ r.cycles ++ written_cycle r iv ∷ []
  pub known_cycle :
      has_cycle r.cycles iv.order_key ≡ true
      → out.cycles ≡ map (refreshed (written_cycle r iv)) r.cycles
  pub spans : out.state_durations ≡ r.state_durations ++ map (span_row iv) iv.state_durations
  pub dwells :
      out.step_dwells
      ≡ map
          (λ (d : DwellRow). record d { recipe_id = fill_recipe iv d.dwell.order_key d.recipe_id })
          r.step_dwells
        ++ map (dwell_row firmware iv) iv.step_dwells
  pub faults :
      AreInserted
        (map
          (λ (f : FaultRow). record f { recipe_id = fill_recipe iv f.fault.order_key f.recipe_id })
          r.fault_events)
        (map (fault_event_row firmware.description iv) iv.faults)
        out.fault_events
  pub toggles : out.sensor_toggles ≡ r.sensor_toggles ++ map (toggle_row iv) iv.toggles
  pub doors :
      out.door_events
      ≡ map
          (λ (d : DoorRow). record d { recipe_id = fill_recipe iv d.door.order_key d.recipe_id })
          r.door_events
        ++ map (door_row iv) iv.door_events
  pub configs : out.config_history ≡ r.config_history ++ map config_row iv.configs

begin_flush-cycles :
    (iv : Interval) (r : Replica)
    → (begin_flush iv r).cycles ≡ upsert_cycle (written_cycle r iv) r.cycles
unfolding begin_flush fill_recipes
begin_flush-cycles iv r = refl

order_id-written_cycle :
    (r : Replica) (iv : Interval) → (written_cycle r iv).order_id ≡ iv.order_key
unfolding cycle_row
order_id-written_cycle r iv = refl

begin_flush-new_cycle :
    (iv : Interval) (r : Replica)
    → has_cycle r.cycles iv.order_key ≡ false
    → (begin_flush iv r).cycles ≡ r.cycles ++ written_cycle r iv ∷ []
begin_flush-new_cycle iv r h =
    begin_flush-cycles iv r
    ∙ upsert_cycle-new (written_cycle r iv) r.cycles
        (ap (has_cycle r.cycles) (order_id-written_cycle r iv) ∙ h)

begin_flush-known_cycle :
    (iv : Interval) (r : Replica)
    → IsUnique r.cycles
    → has_cycle r.cycles iv.order_key ≡ true
    → (begin_flush iv r).cycles ≡ map (refreshed (written_cycle r iv)) r.cycles
begin_flush-known_cycle iv r u h =
    begin_flush-cycles iv r
    ∙ upsert_cycle-known (written_cycle r iv) r.cycles u
        (ap (has_cycle r.cycles) (order_id-written_cycle r iv) ∙ h)

-- A closed interval is never refused. Its cycle is written: as a new row, or into the row of its order.
-- Its rows are put behind those that are there, of its faults those whose key is not there yet; and the
-- replica stays consistent.
pub flush_interval-IsConsistent :
    (severity : String → String) (firmware : Firmware) (r : Replica) (iv : Interval)
    → IsClosed severity iv
    → IsConsistent r
    → (out : Replica) × (flush_interval firmware r iv ≡ some out)
      × IsConsistent out
      × IsWritten firmware r iv out
unfolding flush_interval begin_flush fill_recipes span_row dwell_row fault_event_row toggle_row
    door_row config_row
flush_interval-IsConsistent severity firmware r iv c h =
    let o = c.was_open in
    let k = iv.order_key in
    let b = begin_flush iv r in
    let hb = begin_flush-IsConsistent iv r h in
    let there = begin_flush-has_cycle iv r in
    let spans =
      map-key (span_row iv) (λ s. s.span.order_key) k iv.state_durations (λ s p. p.0) o.spans in
    let dwells =
      map-key (dwell_row firmware iv) (λ d. d.dwell.order_key) k iv.step_dwells (λ d p. p.0)
        o.dwells in
    let faults =
      map-key (fault_event_row firmware.description iv) (λ f. f.fault.order_key) k iv.faults
        (λ f p. p.0) o.fault_rows in
    let toggles =
      map-key (toggle_row iv) (λ s. s.toggle.order_key) k iv.toggles (λ s p. p) o.toggle_rows in
    let doors =
      map-key (door_row iv) (λ d. d.door.order_key) k iv.door_events (λ d p. p.0) o.doors in
    let configs =
      map-key config_row (λ x. x.config.order_key) k iv.configs (λ x p. p) o.config_rows in
    let (fault_rows, e, refer, unique, inserted) =
      insert_faults-some b.cycles k b.fault_events
        (map (fault_event_row firmware.description iv) iv.faults) there faults hb.faults_refer
        hb.faults in
    let out = record b {
      state_durations = b.state_durations ++ map (span_row iv) iv.state_durations;
      step_dwells = b.step_dwells ++ map (dwell_row firmware iv) iv.step_dwells;
      fault_events = fault_rows;
      sensor_toggles = b.sensor_toggles ++ map (toggle_row iv) iv.toggles;
      door_events = b.door_events ++ map (door_row iv) iv.door_events;
      config_history = b.config_history ++ map config_row iv.configs;
      marks = flush_marks iv r.marks;
    } in
    (
      out,
      simp
          (
            insert_rows-append _ b.cycles k b.state_durations _ there spans,
            insert_rows-append _ b.cycles k b.step_dwells _ there dwells,
            e,
            insert_rows-append _ b.cycles k b.sensor_toggles _ there toggles,
            insert_rows-append _ b.cycles k b.door_events _ there doors,
            insert_rows-append _ b.cycles k b.config_history _ there configs,
          )
          refl,
      record {
        orders = hb.orders;
        faults = unique;
        stamped = hb.stamped;
        spans_refer =
            All-append _ b.state_durations _ hb.spans_refer
              (HoldAll-key _ b.cycles k _ there spans);
        dwells_refer =
            All-append _ b.step_dwells _ hb.dwells_refer (HoldAll-key _ b.cycles k _ there dwells);
        faults_refer = refer;
        toggles_refer =
            All-append _ b.sensor_toggles _ hb.toggles_refer
              (HoldAll-key _ b.cycles k _ there toggles);
        doors_refer =
            All-append _ b.door_events _ hb.doors_refer (HoldAll-key _ b.cycles k _ there doors);
        configs_refer =
            All-append _ b.config_history _ hb.configs_refer
              (HoldAll-key _ b.cycles k _ there configs);
        pulses_refer = hb.pulses_refer;
        runs_refer = hb.runs_refer;
        keys = hb.keys;
      },
      record {
        new_cycle = begin_flush-new_cycle iv r;
        known_cycle = begin_flush-known_cycle iv r h.orders;
        faults = inserted;
        spans = ap (λ xs. xs ++ map (span_row iv) iv.state_durations) (begin_flush-spans iv r);
        dwells = refl;
        toggles = ap (λ xs. xs ++ map (toggle_row iv) iv.toggles) (begin_flush-toggles iv r);
        doors = refl;
        configs = ap (λ xs. xs ++ map config_row iv.configs) (begin_flush-configs iv r);
      },
    )
