-- ===== src/Tracker/Invariant/Defs.antt =====
-- The invariant of the tracker: what holds of rows, intervals, open work and the whole state.
use canebot_projector_repo.Base.{
  ℕ, ◌+◌, ◌<◌, ◌≡◌, String, Bool, true, false, ◌||◌, Option, none, some, List, [], ◌∷◌, str_eq,
  if◌then◌else◌, All, length, lookup_or, ltb, is_some,
}
use canebot_projector_repo.Rows.{
  OutStateDuration, OutStepDwell, OutStepActuator, OutFaultEvent, OutDoorEvent,
}
use canebot_projector_repo.Labels.{lane_for_state, emits_dwell}
use canebot_projector_repo.Tracker.State.{OpenDwell, OpenDoor, Interval, Tracker}
use canebot_projector_repo.Tracker.Close.{dominant_key}
use canebot_projector_repo.Tracker.StepRuns.{is_positive}

-- A span of time that is not empty, with its length, of the interval `order_key`.
abbrev pub IsSpan : String → OutStateDuration → Type 0
IsSpan order_key s =
    (s.order_key ≡ order_key)
    × (s.entered_at_ms < s.exited_at_ms)
    × (s.entered_at_ms + s.duration_ms ≡ s.exited_at_ms)

-- The same of a dwell, which also names the lane of its state and is one that is kept.
abbrev pub IsDwell : String → Bool → OutStepDwell → Type 0
IsDwell order_key is_production d =
    (d.order_key ≡ order_key)
    × (d.started_at_ms < d.ended_at_ms)
    × (d.started_at_ms + d.duration_ms ≡ d.ended_at_ms)
    × (d.lane ≡ lane_for_state d.state)
    × (emits_dwell d.state is_production ≡ true)

-- An output that ran, over a span that is not empty.
abbrev pub IsActuator : String → OutStepActuator → Type 0
IsActuator order_key a =
    (a.order_key ≡ order_key)
    × (a.step_started_at_ms < a.step_ended_at_ms)
    × (is_positive a.total_run_ms ≡ true)

abbrev pub IsFault : (String → String) → String → OutFaultEvent → Type 0
IsFault severity order_key f = (f.order_key ≡ order_key) × (f.severity ≡ severity f.fault_type)

-- Resets are stamped exactly if there are any.
abbrev pub IsDoorEvent : String → OutDoorEvent → Type 0
IsDoorEvent order_key d =
    (d.order_key ≡ order_key)
    × (d.opened_at_ms < d.closed_at_ms)
    × (d.opened_at_ms + d.duration_ms ≡ d.closed_at_ms)
    × (is_some d.first_reset_at_ms ≡ ltb 0 d.fault_reset_count)
    × (is_some d.last_reset_at_ms ≡ ltb 0 d.fault_reset_count)

-- How many faults of the type there are.
unfoldable pub count_type : String → List OutFaultEvent → ℕ
count_type k [] = 0
count_type k (f ∷ fs) = (if str_eq f.fault_type k then 1 else 0) + count_type k fs

unfoldable pub first_raised : List OutFaultEvent → Option ℕ
first_raised [] = none
first_raised (f ∷ fs) = some f.raised_at_ms

unfoldable pub last_raised : List OutFaultEvent → Option ℕ
last_raised [] = none
last_raised (f ∷ fs) = elim (last_raised fs) [ none ↦ some f.raised_at_ms | some ms ↦ some ms ]

-- The results that the two kinds of interval can have.
unfoldable pub fits : Bool → String → Bool
fits true result =
    str_eq result "completed"
    || (str_eq result "faulted_recoverable"
        || (str_eq result "faulted_non_recoverable" || str_eq result "aborted"))
fits false result =
    str_eq result "idle"
    || (str_eq result "maintenance" || (str_eq result "manual" || str_eq result "error"))

-- What holds of an interval that is open, where `pending` events are counted and not yet appended.
pub record IsOpen (severity : String → String) (pending : ℕ) (iv : Interval) : Type 0 where
  pub result_fits : fits iv.is_production iv.result ≡ true
  pub spans : All (IsSpan iv.order_key) iv.state_durations
  pub dwells : All (IsDwell iv.order_key iv.is_production) iv.step_dwells
  pub actuators : All (IsActuator iv.order_key) iv.step_actuators
  pub fault_rows : All (IsFault severity iv.order_key) iv.faults
  pub event_rows : All (λ e. e.order_key ≡ iv.order_key) iv.events
  pub toggle_rows : All (λ s. s.order_key ≡ iv.order_key) iv.toggles
  pub config_rows : All (λ c. c.order_key ≡ iv.order_key) iv.configs
  pub doors : All (IsDoorEvent iv.order_key) iv.door_events
  pub event_count : iv.fsm_event_count ≡ length iv.events + pending
  pub fault_count : iv.fault_count ≡ length iv.faults
  pub tallies : (k : String) → lookup_or 0 k iv.fault_type_counts ≡ count_type k iv.faults
  pub first_fault : iv.first_fault_ms ≡ first_raised iv.faults
  pub last_fault : iv.last_fault_ms ≡ last_raised iv.faults

-- What holds of an interval that is closed.
pub record IsClosed (severity : String → String) (iv : Interval) : Type 0 where
  pub was_open : IsOpen severity 0 iv
  pub not_empty : iv.started_ms < iv.ended_ms
  pub dominant : iv.dominant_fault_type ≡ dominant_key iv.fault_type_counts

-- A property of the value, if there is one.
abbrev pub OnSome {ℓ κ} : {A : Type ℓ} → (A → Type κ) → Option A → Type κ
OnSome P none = Unit
OnSome P (some a) = P a

abbrev pub IsOpenDwell : OpenDwell → Type 0
IsOpenDwell d = d.lane ≡ lane_for_state d.state

abbrev pub IsOpenDoor : OpenDoor → Type 0
IsOpenDoor d =
    (is_some d.first_reset_ms ≡ ltb 0 d.reset_count)
    × (is_some d.last_reset_ms ≡ ltb 0 d.reset_count)

-- What holds of the work in progress, with `P` of the open interval.
pub record IsWorking (P : Interval → Type 0) (t : Tracker) : Type 0 where
  pub interval : OnSome P t.current
  pub open_dwells : All (λ e. IsOpenDwell e.1) t.open_dwells

-- What closing spans, dwells and intervals leaves as it is.
pub record Keeps (t u : Tracker) : Type 0 where
  pub severity : u.severity ≡ t.severity
  pub use_step_runs : u.use_step_runs ≡ t.use_step_runs
  pub step_run_faults : u.step_run_faults ≡ t.step_run_faults
  pub ledger_faults : u.ledger_faults ≡ t.ledger_faults
  pub open_door_episode : u.open_door_episode ≡ t.open_door_episode
  pub dwell_seq : u.dwell_seq ≡ t.dwell_seq
  pub synth_counter : u.synth_counter ≡ t.synth_counter

-- The invariant, where faults are classified by `severity`, and `pending` events of the open interval
-- are counted and not yet appended.
pub record IsValidAt (severity : String → String) (pending : ℕ) (t : Tracker) : Type 0 where
  pub classifier : t.severity ≡ severity
  pub working : IsWorking (IsOpen severity pending) t
  pub door : OnSome IsOpenDoor t.open_door_episode
  pub queue : All (IsClosed severity) t.closed
  pub idle : t.current ≡ none → t.open_dwells ≡ []

abbrev pub IsValid : (String → String) → Tracker → Type 0
IsValid severity t = IsValidAt severity 0 t
