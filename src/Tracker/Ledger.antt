-- ===== src/Tracker/Ledger.antt =====
-- The ledger of faults of cmd/projector/tracker.go: a fault that a step run repeats is not taken twice.
use canebot_projector_repo.Base.{
  ℕ, ◌+◌, ◌≤◌, ◌≡◌, refl, String, Bool, true, false, ◌&&◌, ◌||◌, List, [], ◌∷◌, ◌++◌, filter, All,
  str_eq, eq_refl, ◌==◌, arith, Option-cases, inl, inr,
}
use canebot_projector_repo.Rows.{SrcStepRun}
use canebot_projector_repo.Labels.{max_interval_ms}
use canebot_projector_repo.Tracker.State.{LedgerFault, Tracker}
use canebot_projector_repo.Tracker.Faults.{
  is_recent, record_ledger_fault, slack_ms, covers, any_covers, ledger_covers, takes_step_run_fault,
  apply_step_run_fault,
}

-- The ledger has the fault at the time.
unfoldable has_entry : String → ℕ → List LedgerFault → Bool
has_entry fault_type at_ms [] = false
has_entry fault_type at_ms (lf ∷ lfs) =
    (str_eq lf.fault_type fault_type && lf.at_ms == at_ms) || has_entry fault_type at_ms lfs

-- Faults that are recorded one after the other.
unfoldable pub record_all : Tracker → List (String × ℕ) → Tracker
record_all t [] = t
record_all t ((fault_type, at_ms) ∷ faults) =
    record_all (record_ledger_fault t fault_type at_ms) faults

has_entry-last :
    (fault_type : String) (at_ms : ℕ) (lfs : List LedgerFault)
    → has_entry fault_type at_ms (lfs ++ record { fault_type = fault_type; at_ms = at_ms } ∷ [])
      ≡ true
unfolding has_entry
has_entry-last fault_type at_ms [] = ground (arith, eq_refl fault_type)
has_entry-last fault_type at_ms (lf ∷ lfs) = ground (arith, has_entry-last fault_type at_ms lfs)

has_entry-front :
    (fault_type : String) (at_ms : ℕ) (lfs new : List LedgerFault)
    → has_entry fault_type at_ms lfs ≡ true
    → has_entry fault_type at_ms (lfs ++ new) ≡ true
unfolding has_entry
has_entry-front fault_type at_ms [] new h = cc
has_entry-front fault_type at_ms (lf ∷ lfs) new h =
    ground (arith, h, has_entry-front fault_type at_ms lfs new)

has_entry-recent :
    (fault_type : String) (at_ms now : ℕ) (lfs : List LedgerFault)
    → now ≤ at_ms + max_interval_ms
    → has_entry fault_type at_ms lfs ≡ true
    → has_entry fault_type at_ms (filter (is_recent now) lfs) ≡ true
unfolding has_entry is_recent
has_entry-recent fault_type at_ms now [] l h = cc
has_entry-recent fault_type at_ms now (lf ∷ lfs) l h =
    ground (arith, h, l, has_entry-recent fault_type at_ms now lfs l)

has_entry-covers :
    (fault_type : String) (at_ms start_ms end_ms : ℕ) (lfs : List LedgerFault)
    → start_ms ≤ at_ms + slack_ms
    → at_ms ≤ end_ms + slack_ms
    → has_entry fault_type at_ms lfs ≡ true
    → any_covers lfs fault_type start_ms end_ms ≡ true
unfolding has_entry any_covers covers
has_entry-covers fault_type at_ms start_ms end_ms [] a b h = cc
has_entry-covers fault_type at_ms start_ms end_ms (lf ∷ lfs) a b h =
    ground (arith, h, a, b, has_entry-covers fault_type at_ms start_ms end_ms lfs a b)

record_all-has_entry :
    (t : Tracker) (fault_type : String) (at_ms : ℕ) (faults : List (String × ℕ))
    → All (λ (f : String × ℕ). f.1 ≤ at_ms + max_interval_ms) faults
    → has_entry fault_type at_ms t.ledger_faults ≡ true
    → has_entry fault_type at_ms (record_all t faults).ledger_faults ≡ true
unfolding record_all record_ledger_fault
record_all-has_entry t fault_type at_ms [] l h = h
record_all-has_entry t fault_type at_ms ((k, now) ∷ faults) l h =
    record_all-has_entry (record_ledger_fault t k now) fault_type at_ms faults l.1 (
      has_entry-recent fault_type at_ms now _ l.0
        (has_entry-front fault_type at_ms t.ledger_faults _ h))

takes_step_run_fault-known :
    (u : Tracker) (sr : SrcStepRun) (start_ms end_ms : ℕ)
    → ledger_covers u sr.fault_type start_ms end_ms ≡ true
    → takes_step_run_fault u sr start_ms end_ms ≡ false
unfolding takes_step_run_fault
takes_step_run_fault-known u sr start_ms end_ms h = ground (arith, h)

apply_step_run_fault-known :
    (u : Tracker) (sr : SrcStepRun) (start_ms end_ms seq : ℕ)
    → ledger_covers u sr.fault_type start_ms end_ms ≡ true
    → apply_step_run_fault u sr start_ms end_ms seq ≡ (u, false)
unfolding apply_step_run_fault
apply_step_run_fault-known u sr start_ms end_ms seq h =
    let known = takes_step_run_fault-known u sr start_ms end_ms h in
    elim (Option-cases u.current) [
      | inl c ↦ simp (c, apply_step_run_fault) refl
      | inr (iv, c) ↦ simp (c, known, apply_step_run_fault) refl
    ]

-- A fault that the ledger has recorded is remembered while other faults are recorded, if these come no
-- more than 15 minutes later: a step run that repeats it, and that starts at most 2 seconds after it
-- and ends at most 2 seconds before it, adds no fault and closes no interval.
pub apply_step_run_fault-repeated :
    (t : Tracker) (at_ms : ℕ) (later : List (String × ℕ)) (sr : SrcStepRun)
    (start_ms end_ms seq : ℕ)
    → All (λ (f : String × ℕ). f.1 ≤ at_ms + max_interval_ms) later
    → start_ms ≤ at_ms + slack_ms
    → at_ms ≤ end_ms + slack_ms
    → let u = record_all (record_ledger_fault t sr.fault_type at_ms) later in
      apply_step_run_fault u sr start_ms end_ms seq ≡ (u, false)
unfolding ledger_covers record_ledger_fault
apply_step_run_fault-repeated t at_ms later sr start_ms end_ms seq l a b =
    let u = record_all (record_ledger_fault t sr.fault_type at_ms) later in
    let known = has_entry-covers sr.fault_type at_ms start_ms end_ms u.ledger_faults a b (
      record_all-has_entry (record_ledger_fault t sr.fault_type at_ms) sr.fault_type at_ms later l (
        has_entry-recent sr.fault_type at_ms at_ms _ (omega arith)
          (has_entry-last sr.fault_type at_ms t.ledger_faults))) in
    apply_step_run_fault-known u sr start_ms end_ms seq known
