-- ===== src/Writer/Consistency.antt =====
-- What holds of the replica between two transactions, and that the first half of a flush keeps it.
use canebot_projector_repo.Base.{
  ◌≡◌, refl, ap, ◌∙◌, String, true, ◌||◌, List, [], ◌∷◌, map, str_eq, eq_refl, All, arith,
}
use canebot_projector_repo.Tracker.State.{Interval}
use canebot_projector_repo.Writer.Tables.{
  Cycle, SpanRow, DwellRow, FaultRow, ToggleRow, DoorRow, ConfigRow, ActuatorRow, CipRun, Replica,
  empty_replica,
}
use canebot_projector_repo.Writer.Marks.{guard}
use canebot_projector_repo.Writer.Rows.{cycle_row}
use canebot_projector_repo.Writer.Keys.{AreUniqueKeys}
use canebot_projector_repo.Writer.Flush.{
  upsert_cycle, fill_recipes, has_cycle, has_fault, begin_flush, flush_marks,
}
use canebot_projector_repo.Writer.Watermarks.{mark, IsStamped, flush-IsStamped}
use canebot_projector_repo.Writer.Inserting.{
  IsUnique, AreUniqueFaults, has_cycle-upsert_cycle, upsert_cycle-IsUnique,
}

-- The cycle that the row names is there.
abbrev pub Refers {ℓ} : {A : Type ℓ} → List Cycle → (A → String) → A → Type 0
Refers cycles key x = has_cycle cycles (key x) ≡ true

abbrev pub HoldAll {ℓ} : {A : Type ℓ} → List Cycle → (A → String) → List A → Type 0
HoldAll cycles key xs = All (Refers cycles key) xs

-- Orders, faults and the keys of rollups are there once, the cycles' timestamps never go backwards and do not pass the
-- watermark, and every child's cycle is there.
pub record IsConsistent (r : Replica) : Type 0 where
  pub orders : IsUnique r.cycles
  pub faults : AreUniqueFaults r.fault_events
  pub stamped : IsStamped 0 r.cycles (mark "cycles" r.marks)
  pub spans_refer : HoldAll r.cycles (λ (s : SpanRow). s.span.order_key) r.state_durations
  pub dwells_refer : HoldAll r.cycles (λ (d : DwellRow). d.dwell.order_key) r.step_dwells
  pub faults_refer : HoldAll r.cycles (λ (f : FaultRow). f.fault.order_key) r.fault_events
  pub toggles_refer : HoldAll r.cycles (λ (s : ToggleRow). s.toggle.order_key) r.sensor_toggles
  pub doors_refer : HoldAll r.cycles (λ (d : DoorRow). d.door.order_key) r.door_events
  pub configs_refer : HoldAll r.cycles (λ (c : ConfigRow). c.config.order_key) r.config_history
  pub pulses_refer : HoldAll r.cycles (λ (a : ActuatorRow). a.pulse.order_key) r.actuator_intervals
  pub runs_refer : HoldAll r.cycles (λ (c : CipRun). c.order_id) r.cip_runs
  pub keys : AreUniqueKeys r.rollups

pub empty_replica-IsConsistent : IsConsistent empty_replica
empty_replica-IsConsistent = record {
  orders = tt;
  faults = tt;
  stamped = omega arith;
  spans_refer = tt;
  dwells_refer = tt;
  faults_refer = tt;
  toggles_refer = tt;
  doors_refer = tt;
  configs_refer = tt;
  pulses_refer = tt;
  runs_refer = tt;
  keys = tt;
}

module _ {ℓ} {A : Type ℓ} (key : A → String) where
  HoldAll-upsert_cycle :
      (new : Cycle) (cycles : List Cycle) (xs : List A)
      → HoldAll cycles key xs
      → HoldAll (upsert_cycle new cycles) key xs
  HoldAll-upsert_cycle new cycles [] h = tt
  HoldAll-upsert_cycle new cycles (x ∷ xs) h = (
    ground (arith, has_cycle-upsert_cycle new cycles (key x), h.0),
    HoldAll-upsert_cycle new cycles xs h.1,
  )

  -- An update of the rows that leaves the key.
  pub HoldAll-map :
      (f : A → A) (cycles : List Cycle) (xs : List A)
      → ((x : A) → key (f x) ≡ key x)
      → HoldAll cycles key xs
      → HoldAll cycles key (map f xs)
  HoldAll-map f cycles [] same h = tt
  HoldAll-map f cycles (x ∷ xs) same h =
      (ap (has_cycle cycles) (same x) ∙ h.0, HoldAll-map f cycles xs same h.1)

  pub HoldAll-key :
      (cycles : List Cycle) (k : String) (xs : List A)
      → has_cycle cycles k ≡ true
      → All (λ x. key x ≡ k) xs
      → HoldAll cycles key xs
  HoldAll-key cycles k [] h a = tt
  HoldAll-key cycles k (x ∷ xs) h a = (ap (has_cycle cycles) a.0 ∙ h, HoldAll-key cycles k xs h a.1)

-- The rows that are made of the parts of an interval carry its key.
pub map-key {ℓ κ μ} :
    {A : Type ℓ} {B : Type κ} {P : A → Type μ} (row : A → B) (key : B → String) (k : String)
    (xs : List A)
    → ((x : A) → P x → key (row x) ≡ k)
    → All P xs
    → All (λ y. key y ≡ k) (map row xs)
map-key row key k [] h a = tt
map-key row key k (x ∷ xs) h a = (h x a.0, map-key row key k xs h a.1)

has_fault-map :
    (f : FaultRow → FaultRow) (fs : List FaultRow) (k : String)
    → ((x : FaultRow) → (f x).fault.fault_key ≡ x.fault.fault_key)
    → has_fault k (map f fs) ≡ has_fault k fs
unfolding has_fault
has_fault-map f [] k same = refl
has_fault-map f (x ∷ xs) k same =
    ap (λ j. str_eq j k || has_fault k (map f xs)) (same x)
    ∙ ap (λ b. str_eq x.fault.fault_key k || b) (has_fault-map f xs k same)

map-AreUniqueFaults :
    (f : FaultRow → FaultRow) (fs : List FaultRow)
    → ((x : FaultRow) → (f x).fault.fault_key ≡ x.fault.fault_key)
    → AreUniqueFaults fs
    → AreUniqueFaults (map f fs)
map-AreUniqueFaults f [] same u = tt
map-AreUniqueFaults f (x ∷ xs) same u = (
  ap (λ k. has_fault k (map f xs)) (same x) ∙ has_fault-map f xs x.fault.fault_key same ∙ u.0,
  map-AreUniqueFaults f xs same u.1,
)

pub begin_flush-IsConsistent :
    (iv : Interval) (r : Replica)
    → IsConsistent r
    → IsConsistent (record (begin_flush iv r) { marks = flush_marks iv r.marks })
unfolding begin_flush fill_recipes
begin_flush-IsConsistent iv r h =
    let new = cycle_row (guard r.marks "cycles" iv.ended_ms) iv in
    record {
      orders = upsert_cycle-IsUnique new r.cycles h.orders;
      stamped = flush-IsStamped iv r h.stamped;
      faults = map-AreUniqueFaults _ r.fault_events (λ x. refl) h.faults;
      spans_refer = HoldAll-upsert_cycle _ new r.cycles r.state_durations h.spans_refer;
      dwells_refer =
          HoldAll-map _ _ _ r.step_dwells (λ x. refl)
            (HoldAll-upsert_cycle _ new r.cycles r.step_dwells h.dwells_refer);
      faults_refer =
          HoldAll-map _ _ _ r.fault_events (λ x. refl)
            (HoldAll-upsert_cycle _ new r.cycles r.fault_events h.faults_refer);
      toggles_refer = HoldAll-upsert_cycle _ new r.cycles r.sensor_toggles h.toggles_refer;
      doors_refer =
          HoldAll-map _ _ _ r.door_events (λ x. refl)
            (HoldAll-upsert_cycle _ new r.cycles r.door_events h.doors_refer);
      configs_refer = HoldAll-upsert_cycle _ new r.cycles r.config_history h.configs_refer;
      pulses_refer =
          HoldAll-map _ _ _ r.actuator_intervals (λ x. refl)
            (HoldAll-upsert_cycle _ new r.cycles r.actuator_intervals h.pulses_refer);
      runs_refer = HoldAll-upsert_cycle _ new r.cycles r.cip_runs h.runs_refer;
      keys = h.keys;
    }

pub begin_flush-has_cycle :
    (iv : Interval) (r : Replica) → has_cycle (begin_flush iv r).cycles iv.order_key ≡ true
unfolding begin_flush fill_recipes cycle_row
begin_flush-has_cycle iv r = ground (
  arith,
  has_cycle-upsert_cycle (cycle_row (guard r.marks "cycles" iv.ended_ms) iv) r.cycles iv.order_key,
  eq_refl iv.order_key,
)
