-- ===== src/Tracker/Faults.antt =====
-- Faults: `ApplyFault`, `recordLedgerFault`, `ledgerCovers` and `applyStepRunFault` of
-- cmd/projector/tracker.go.
use canebot_projector_repo.Base.{
  ℕ, suc, ◌+◌, String, Bool, false, not, ◌&&◌, ◌||◌, Option, none, some, List, [], ◌∷◌, ◌++◌,
  str_eq, leb, if◌then◌else◌, lookup, lookup_or, insert, filter, show, ◌&◌,
}
use canebot_projector_repo.Rows.{SrcFault, SrcStepRun, OutFaultEvent, unix_milli}
use canebot_projector_repo.Labels.{fault_result, max_interval_ms}
use canebot_projector_repo.Tracker.State.{LedgerFault, Interval, Tracker}
use canebot_projector_repo.Tracker.Close.{close_interval}
use canebot_projector_repo.Tracker.Ensure.{ensure_interval}

-- `lf.atMS >= atMS - maxIntervalMS`, with the subtraction moved over.
unfoldable pub is_recent : ℕ → LedgerFault → Bool
is_recent at_ms lf = leb at_ms (lf.at_ms + max_interval_ms)

unfoldable pub record_ledger_fault : Tracker → String → ℕ → Tracker
record_ledger_fault t fault_type at_ms = record t {
  ledger_faults =
      filter (is_recent at_ms)
        (t.ledger_faults ++ record { fault_type = fault_type; at_ms = at_ms } ∷ []);
}

-- `slackMS`
abbrev pub slack_ms : ℕ
slack_ms = 2000

unfoldable pub covers : String → ℕ → ℕ → LedgerFault → Bool
covers fault_type start_ms end_ms lf =
    str_eq lf.fault_type fault_type
    && (leb start_ms (lf.at_ms + slack_ms) && leb lf.at_ms (end_ms + slack_ms))

unfoldable pub any_covers : List LedgerFault → String → ℕ → ℕ → Bool
any_covers [] fault_type start_ms end_ms = false
any_covers (lf ∷ lfs) fault_type start_ms end_ms =
    covers fault_type start_ms end_ms lf || any_covers lfs fault_type start_ms end_ms

unfoldable pub ledger_covers : Tracker → String → ℕ → ℕ → Bool
ledger_covers t = any_covers t.ledger_faults

-- The fault counters of an interval, and the row.
unfoldable pub add_fault : Interval → OutFaultEvent → Interval
add_fault iv row = record iv {
  fault_count = suc iv.fault_count;
  fault_type_counts =
      insert row.fault_type (suc (lookup_or 0 row.fault_type iv.fault_type_counts))
        iv.fault_type_counts;
  first_fault_ms = elim iv.first_fault_ms [ none ↦ some row.raised_at_ms | some ms ↦ some ms ];
  last_fault_ms = some row.raised_at_ms;
  faults = iv.faults ++ row ∷ [];
}

unfoldable pub fault_row : String → String → SrcFault → ℕ → Option ℕ → OutFaultEvent
fault_row severity order_key f at_ms dwell_seq = record {
  raised_at_ms = at_ms;
  cleared_at_ms = none;
  downtime_ms = none;
  order_key = order_key;
  fault_key = f.fault_type & ("|" & (show f.id & ("|" & order_key)));
  fault_type = f.fault_type;
  severity = severity;
  recovered = none;
  recovery_at_ms = none;
  state = f.state;
  step = f.step;
  message = f.message;
  dwell_seq_index = dwell_seq;
}

-- The dwell that is open in the main lane counts the fault.
unfoldable pub count_dwell_fault : Tracker → Tracker
count_dwell_fault t = elim (lookup "main" t.open_dwells) [
  | none ↦ t
  | some d ↦ record t {
    open_dwells = insert "main" (record d { faults = suc d.faults }) t.open_dwells;
  }
]

unfoldable pub main_dwell_seq : Tracker → Option ℕ
main_dwell_seq t = elim (lookup "main" t.open_dwells) [ none ↦ none | some d ↦ some d.seq_index ]

-- A fault ends the production interval that it belongs to.
unfoldable pub close_faulted : Tracker → ℕ → String → Tracker
close_faulted t at_ms severity = elim t.current [
  | none ↦ t
  | some iv ↦ if iv.is_production then close_interval t at_ms (fault_result severity) else t
]

-- `ApplyFault` behind `ensureInterval`.
unfoldable pub take_fault : Tracker → SrcFault → ℕ → Tracker
take_fault t f at_ms = elim t.current [
  | none ↦ t
  | some iv ↦
      let severity = t.severity f.fault_type in
      let noted = count_dwell_fault (record_ledger_fault t f.fault_type at_ms) in
      let row = fault_row severity iv.order_key f at_ms (main_dwell_seq noted) in
      close_faulted (record noted { current = some (add_fault iv row) }) at_ms severity
]

unfoldable pub apply_fault : Tracker → SrcFault → Tracker
apply_fault t f =
    let at_ms = unix_milli f.ts in take_fault (ensure_interval t f.order_key f.state at_ms) f at_ms

unfoldable pub step_run_fault_row : String → String → SrcStepRun → ℕ → ℕ → OutFaultEvent
step_run_fault_row severity order_key sr end_ms seq = record {
  raised_at_ms = end_ms;
  cleared_at_ms = none;
  downtime_ms = none;
  order_key = order_key;
  fault_key = sr.fault_type & ("|sr" & (show sr.id & ("|" & order_key)));
  fault_type = sr.fault_type;
  severity = severity;
  recovered = none;
  recovery_at_ms = none;
  state = sr.current_state;
  step = sr.step;
  message = sr.fault_message;
  dwell_seq_index = some seq;
}

-- The step run's fault is taken: it has one, the columns exist, and the ledger has not recorded it.
unfoldable pub takes_step_run_fault : Tracker → SrcStepRun → ℕ → ℕ → Bool
takes_step_run_fault t sr start_ms end_ms =
    not (str_eq sr.fault_type "")
    && (t.step_run_faults && not (ledger_covers t sr.fault_type start_ms end_ms))

-- The tracker, and whether the interval was closed.
unfoldable pub apply_step_run_fault : Tracker → SrcStepRun → ℕ → ℕ → ℕ → Tracker × Bool
apply_step_run_fault t sr start_ms end_ms seq = elim t.current [
  | none ↦ (t, false)
  | some iv ↦
      if takes_step_run_fault t sr start_ms end_ms
      then (let severity = t.severity sr.fault_type in
          let row = step_run_fault_row severity iv.order_key sr end_ms seq in
          (
            close_faulted (record t { current = some (add_fault iv row) }) end_ms severity,
            iv.is_production,
          ))
      else (t, false)
]
