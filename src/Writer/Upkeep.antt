-- ===== src/Writer/Upkeep.antt =====
-- Writing, linking and pruning keep the replica consistent.
use canebot_projector_repo.Base.{
  ℕ, ◌≤◌, ◌≡◌, refl, ap, String, Bool, true, false, Option, none, some, List, [], ◌∷◌, ◌++◌, filter,
  str_eq, All, All-snoc, arith, Bool-cases, inl, inr,
}
use canebot_projector_repo.Rows.{OutActuatorInterval}
use canebot_projector_repo.Writer.Tables.{Cycle, FaultRow, Replica}
use canebot_projector_repo.Writer.Marks.{set_watermark, guard}
use canebot_projector_repo.Writer.Flush.{has_cycle, has_fault}
use canebot_projector_repo.Writer.Pulses.{
  CycleContext, cycle_context, actuator_row, write_actuator_interval,
}
use canebot_projector_repo.Writer.Pruning.{is_kept, prune_children, refer_all, can_keep, prune}
use canebot_projector_repo.Writer.Watermarks.{mark, IsStamped, set_watermark-other}
use canebot_projector_repo.Writer.Inserting.{IsUnique, AreUniqueFaults}
use canebot_projector_repo.Writer.Keys.{filter-AreUniqueKeys}
use canebot_projector_repo.Writer.Consistency.{HoldAll, IsConsistent}

cycle_context-has_cycle :
    (cycles : List Cycle) (key : String) (context : CycleContext)
    → cycle_context cycles key ≡ some context
    → has_cycle cycles key ≡ true
unfolding cycle_context has_cycle
cycle_context-has_cycle [] key context e = cc
cycle_context-has_cycle (c ∷ cs) key context e = elim (Bool-cases (str_eq c.order_id key)) [
  | inl h ↦ simp h refl
  | inr h ↦ ground (arith, h, e, cycle_context-has_cycle cs key context)
]

-- The watermark of another table does not move that of the cycles.
pub mark-other :
    (table : String) (marks : List (String × ℕ)) (ts : ℕ)
    → str_eq table "cycles" ≡ false
    → mark "cycles" (set_watermark marks table ts) ≡ mark "cycles" marks
mark-other table marks ts d =
    ap {B = ℕ} (λ (o : Option ℕ). elim o [ none ↦ 0 | some v ↦ v ])
      (set_watermark-other marks table "cycles" ts d)

-- A pulse of a cycle whose context is found is never refused, and the replica stays consistent.
pub write_actuator_interval-IsConsistent :
    (r : Replica) (a : OutActuatorInterval) (context : CycleContext)
    → cycle_context r.cycles a.order_key ≡ some context
    → IsConsistent r
    → (out : Replica) × (write_actuator_interval r a context ≡ some out)
      × IsConsistent out
      × (out.cycles ≡ r.cycles)
unfolding write_actuator_interval actuator_row
write_actuator_interval-IsConsistent r a context e h =
    let there = cycle_context-has_cycle r.cycles a.order_key context e in
    let ts = guard r.marks "actuator_intervals" a.ended_at_ms in
    let row = actuator_row ts a context in
    let out = record r {
      actuator_intervals = r.actuator_intervals ++ row ∷ [];
      marks = set_watermark r.marks "actuator_intervals" ts;
    } in
    (
      out,
      simp there refl,
      record {
        orders = h.orders;
        faults = h.faults;
        stamped = rw (mark-other "actuator_intervals" r.marks ts refl) h.stamped;
        spans_refer = h.spans_refer;
        dwells_refer = h.dwells_refer;
        faults_refer = h.faults_refer;
        toggles_refer = h.toggles_refer;
        doors_refer = h.doors_refer;
        configs_refer = h.configs_refer;
        pulses_refer = All-snoc _ r.actuator_intervals row h.pulses_refer there;
        runs_refer = h.runs_refer;
        keys = h.keys;
      },
      refl,
    )

pub filter-All {ℓ κ} :
    {A : Type ℓ} (P : A → Type κ) (p : A → Bool) (xs : List A) → All P xs → All P (filter p xs)
filter-All P p [] h = tt
filter-All P p (x ∷ xs) h = elim (Bool-cases (p x)) [
  | inl e ↦ rw e (h.0, filter-All P p xs h.1)
  | inr e ↦ rw e (filter-All P p xs h.1)
]

refer_all-HoldAll {ℓ} :
    {A : Type ℓ} (key : A → String) (cycles : List Cycle) (xs : List A)
    → refer_all key cycles xs ≡ true
    → HoldAll cycles key xs
unfolding refer_all
refer_all-HoldAll key cycles [] h = tt
refer_all-HoldAll key cycles (x ∷ xs) h =
    (ground (arith, h), refer_all-HoldAll key cycles xs (ground (arith, h)))

has_cycle-filter :
    (p : Cycle → Bool) (cs : List Cycle) (k : String)
    → has_cycle cs k ≡ false
    → has_cycle (filter p cs) k ≡ false
unfolding has_cycle
has_cycle-filter p [] k h = refl
has_cycle-filter p (c ∷ cs) k h = ground (arith, h, has_cycle-filter p cs k)

filter-IsUnique : (p : Cycle → Bool) (cs : List Cycle) → IsUnique cs → IsUnique (filter p cs)
filter-IsUnique p [] u = tt
filter-IsUnique p (c ∷ cs) u = elim (Bool-cases (p c)) [
  | inl e ↦ rw e (has_cycle-filter p cs c.order_id u.0, filter-IsUnique p cs u.1)
  | inr e ↦ rw e (filter-IsUnique p cs u.1)
]

has_fault-filter :
    (p : FaultRow → Bool) (fs : List FaultRow) (k : String)
    → has_fault k fs ≡ false
    → has_fault k (filter p fs) ≡ false
unfolding has_fault
has_fault-filter p [] k h = refl
has_fault-filter p (f ∷ fs) k h = ground (arith, h, has_fault-filter p fs k)

filter-AreUniqueFaults :
    (p : FaultRow → Bool) (fs : List FaultRow) → AreUniqueFaults fs → AreUniqueFaults (filter p fs)
filter-AreUniqueFaults p [] u = tt
filter-AreUniqueFaults p (f ∷ fs) u = elim (Bool-cases (p f)) [
  | inl e ↦ rw e (has_fault-filter p fs f.fault.fault_key u.0, filter-AreUniqueFaults p fs u.1)
  | inr e ↦ rw e (filter-AreUniqueFaults p fs u.1)
]

IsStamped-earlier :
    (lo lo' : ℕ) (cs : List Cycle) (hi : ℕ) → lo' ≤ lo → IsStamped lo cs hi → IsStamped lo' cs hi
IsStamped-earlier lo lo' [] hi le h = omega arith
IsStamped-earlier lo lo' (c ∷ cs) hi le h = (omega (arith, le, h.0), h.1)

filter-IsStamped :
    (p : Cycle → Bool) (lo : ℕ) (cs : List Cycle) (hi : ℕ)
    → IsStamped lo cs hi
    → IsStamped lo (filter p cs) hi
filter-IsStamped p lo [] hi h = h
filter-IsStamped p lo (c ∷ cs) hi h = elim (Bool-cases (p c)) [
  | inl e ↦ rw e (h.0, filter-IsStamped p c.event_ts cs hi h.1)
  | inr e ↦ rw e (
      IsStamped-earlier c.event_ts lo (filter p cs) hi h.0
        (filter-IsStamped p c.event_ts cs hi h.1))
]

prune_children-IsConsistent :
    (cutoff : ℕ) (r : Replica) → IsConsistent r → IsConsistent (prune_children cutoff r)
unfolding prune_children
prune_children-IsConsistent cutoff r h = record {
  orders = h.orders;
  faults = filter-AreUniqueFaults _ r.fault_events h.faults;
  stamped = h.stamped;
  spans_refer = filter-All _ _ r.state_durations h.spans_refer;
  dwells_refer = filter-All _ _ r.step_dwells h.dwells_refer;
  faults_refer = filter-All _ _ r.fault_events h.faults_refer;
  toggles_refer = filter-All _ _ r.sensor_toggles h.toggles_refer;
  doors_refer = filter-All _ _ r.door_events h.doors_refer;
  configs_refer = filter-All _ _ r.config_history h.configs_refer;
  pulses_refer = filter-All _ _ r.actuator_intervals h.pulses_refer;
  runs_refer = filter-All _ _ r.cip_runs h.runs_refer;
  keys = filter-AreUniqueKeys _ r.rollups h.keys;
}

set_cycles-IsConsistent :
    (cycles : List Cycle) (r : Replica)
    → IsUnique cycles
    → IsStamped 0 cycles (mark "cycles" r.marks)
    → can_keep cycles r ≡ true
    → IsConsistent r
    → IsConsistent (record r { cycles = cycles })
unfolding can_keep
set_cycles-IsConsistent cycles r u s k h = record {
  orders = u;
  faults = h.faults;
  stamped = s;
  spans_refer = refer_all-HoldAll _ cycles r.state_durations (ground (arith, k));
  dwells_refer = refer_all-HoldAll _ cycles r.step_dwells (ground (arith, k));
  faults_refer = refer_all-HoldAll _ cycles r.fault_events (ground (arith, k));
  toggles_refer = refer_all-HoldAll _ cycles r.sensor_toggles (ground (arith, k));
  doors_refer = refer_all-HoldAll _ cycles r.door_events (ground (arith, k));
  configs_refer = refer_all-HoldAll _ cycles r.config_history (ground (arith, k));
  pulses_refer = refer_all-HoldAll _ cycles r.actuator_intervals (ground (arith, k));
  runs_refer = refer_all-HoldAll _ cycles r.cip_runs (ground (arith, k));
  keys = h.keys;
}

-- Pruning keeps the replica consistent, whether the cycles are deleted or refused.
pub prune-IsConsistent :
    (cutoff : ℕ) (r : Replica) → IsConsistent r → IsConsistent (prune cutoff r).0
unfolding prune
prune-IsConsistent cutoff r h =
    let pruned = prune_children cutoff r in
    let kept = λ (c : Cycle). is_kept cutoff c.event_ts in
    let hp = prune_children-IsConsistent cutoff r h in
    elim (Bool-cases (can_keep (filter kept r.cycles) pruned)) [
      | inl k ↦ simp k (
          set_cycles-IsConsistent (filter kept r.cycles) pruned
            (filter-IsUnique kept r.cycles h.orders) (filter-IsStamped kept 0 r.cycles _ hp.stamped)
            k hp)
      | inr k ↦ simp k hp
    ]
