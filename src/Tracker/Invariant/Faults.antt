-- ===== src/Tracker/Invariant/Faults.antt =====
-- Faults keep the invariant.
use canebot_projector_repo.Base.{
  ℕ, ◌≡◌, refl, ◌∙◌, ap, String, true, Option, str_eq, Bool-cases, Option-cases, inl, inr, is_some,
  lookup, insert-AllValues, lookup-AllValues,
}
use canebot_projector_repo.Rows.{SrcFault}
use canebot_projector_repo.Labels.{fault_result}
use canebot_projector_repo.Tracker.State.{Tracker}
use canebot_projector_repo.Tracker.Faults.{
  record_ledger_fault, add_fault, fault_row, count_dwell_fault, main_dwell_seq, close_faulted,
  take_fault, apply_fault,
}
use canebot_projector_repo.Tracker.StepRuns.{}
use canebot_projector_repo.Tracker.Invariant.Defs.{IsFault, IsOpenDwell, IsValid, fits}
use canebot_projector_repo.Tracker.Invariant.Intervals.{add_fault-IsOpen}
use canebot_projector_repo.Tracker.Invariant.Ensuring.{
  ensure_interval-IsValid, close_interval-IsValid,
}
use canebot_projector_repo.Tracker.Invariant.Events.{production_CanForce, IsOpen-interval-of}
use canebot_projector_repo.Tracker.Invariant.Tracking.{set_current-IsValidAt, set_dwells-IsValidAt}

fault_result-fits : (severity : String) → fits true (fault_result severity) ≡ true
unfolding fault_result fits
fault_result-fits severity = elim (Bool-cases (str_eq severity "non_recoverable")) [
  | inl e ↦ rw e refl
  | inr e ↦ rw e refl
]

record_ledger_fault-current :
    (t : Tracker) (fault_type : String) (at_ms : ℕ)
    → is_some (record_ledger_fault t fault_type at_ms).current ≡ is_some t.current
unfolding record_ledger_fault
record_ledger_fault-current t fault_type at_ms = refl

module _ (severity : String → String) where
  pub close_faulted-IsValid :
      (t : Tracker) (at_ms : ℕ) (level : String)
      → IsValid severity t
      → IsValid severity (close_faulted t at_ms level)
  unfolding close_faulted
  close_faulted-IsValid t at_ms level v = elim (Option-cases t.current) [
    | inl c ↦ simp (c, close_faulted) v
    | inr (iv, c) ↦ elim (Bool-cases iv.is_production) [
      | inl p ↦
          simp (c, p, close_faulted)
            (close_interval-IsValid severity t at_ms (fault_result level) v (
              rw c
                (production_CanForce severity (fault_result level) iv p (fault_result-fits level))))
      | inr p ↦ simp (c, p, close_faulted) v
    ]
  ]

  record_ledger_fault-IsValid :
      (t : Tracker) (fault_type : String) (at_ms : ℕ)
      → IsValid severity t
      → IsValid severity (record_ledger_fault t fault_type at_ms)
  unfolding record_ledger_fault
  record_ledger_fault-IsValid t fault_type at_ms v = record {
    classifier = v.classifier;
    working = record { interval = v.working.interval; open_dwells = v.working.open_dwells };
    door = v.door;
    queue = v.queue;
    idle = v.idle;
  }

  count_dwell_fault-IsValid :
      (t : Tracker)
      → IsValid severity t
      → is_some t.current ≡ true
      → IsValid severity (count_dwell_fault t)
  unfolding count_dwell_fault
  count_dwell_fault-IsValid t v o = elim (Option-cases (lookup "main" t.open_dwells)) [
    | inl e ↦ rw (e, count_dwell_fault) v
    | inr (d, e) ↦
        rw (e, count_dwell_fault)
          (set_dwells-IsValidAt severity t 0 _ t.dwell_seq v o (
            insert-AllValues IsOpenDwell "main" _ t.open_dwells
              (lookup-AllValues IsOpenDwell "main" t.open_dwells d v.working.open_dwells e)
              v.working.open_dwells))
  ]

  fault_row-IsFault :
      (t : Tracker) (f : SrcFault) (order_key : String) (at_ms : ℕ) (dwell_seq : Option ℕ)
      → t.severity ≡ severity
      → IsFault severity order_key (fault_row (t.severity f.fault_type) order_key f at_ms dwell_seq)
  unfolding fault_row
  fault_row-IsFault t f order_key at_ms dwell_seq e = (refl, ap (λ s. s f.fault_type) e)

  pub take_fault-IsValid :
      (t : Tracker) (f : SrcFault) (at_ms : ℕ)
      → IsValid severity t
      → IsValid severity (take_fault t f at_ms)
  unfolding take_fault
  take_fault-IsValid t f at_ms v = elim (Option-cases t.current) [
    | inl c ↦ simp (c, take_fault) v
    | inr (iv, c) ↦
        let level = t.severity f.fault_type in
        let ledger = record_ledger_fault t f.fault_type at_ms in
        let noted = count_dwell_fault ledger in
        let row = fault_row level iv.order_key f at_ms (main_dwell_seq noted) in
        let h =
          add_fault-IsOpen iv (IsOpen-interval-of severity t 0 iv v c) row
            (fault_row-IsFault t f iv.order_key at_ms _ v.classifier) in
        let v' =
          count_dwell_fault-IsValid ledger (record_ledger_fault-IsValid t f.fault_type at_ms v)
            (record_ledger_fault-current t f.fault_type at_ms ∙ ap is_some c) in
        simp (c, take_fault)
          (close_faulted-IsValid _ at_ms level
            (set_current-IsValidAt severity noted (add_fault iv row) 0 0 v' h))
  ]

  pub apply_fault-IsValid :
      (t : Tracker) (f : SrcFault) → IsValid severity t → IsValid severity (apply_fault t f)
  unfolding apply_fault
  apply_fault-IsValid t f v =
      take_fault-IsValid _ f _ (ensure_interval-IsValid severity t f.order_key f.state _ v)
