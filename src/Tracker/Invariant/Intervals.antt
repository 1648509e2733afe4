-- ===== src/Tracker/Invariant/Intervals.antt =====
-- What each change of an open interval keeps.
use canebot_projector_repo.Base.{
  ℕ, suc, ◌+◌, ◌<◌, ◌≡◌, refl, sym, ◌⊎◌, tests, leb→lt, String, Bool, true, none, some, List, [],
  ◌∷◌, ◌++◌, str_eq, if◌then◌else◌, All, All-append, All-snoc, length, length-append, lookup_or,
  lookup, lookup-insert, arith, leb, Bool-cases, inl, inr, eq_iff,
}
use canebot_projector_repo.Rows.{
  OutFsmEvent, OutStateDuration, OutStepDwell, OutStepActuator, OutFaultEvent, OutSensorToggle,
  OutConfigChange, OutDoorEvent, SrcFsmEvent, SrcOrder,
}
use canebot_projector_repo.Labels.{emits_dwell}
use canebot_projector_repo.Tracker.State.{OpenStateSpan, OpenDwell, Interval, new_interval}
use canebot_projector_repo.Tracker.Close.{
  state_duration, add_state_duration, step_dwell, add_step_dwell, emit_dwell, finish,
}
use canebot_projector_repo.Tracker.Events.{note_event, add_event}
use canebot_projector_repo.Tracker.Faults.{add_fault}
use canebot_projector_repo.Tracker.StepRuns.{add_step_actuators}
use canebot_projector_repo.Tracker.Doors.{add_door_event, add_toggle}
use canebot_projector_repo.Tracker.Inputs.{note_order, add_config}
use canebot_projector_repo.Tracker.Invariant.Defs.{
  IsSpan, IsDwell, IsActuator, IsFault, IsDoorEvent, IsOpen, IsOpenDwell, count_type, first_raised,
  last_raised, fits,
}

module _ {severity : String → String} {n : ℕ} (iv : Interval) (h : IsOpen severity n iv) where
  pub add_state_duration-IsOpen :
      (row : OutStateDuration)
      → IsSpan iv.order_key row
      → IsOpen severity n (add_state_duration iv row)
  unfolding add_state_duration
  add_state_duration-IsOpen row r =
      assumption (All-snoc (IsSpan iv.order_key) iv.state_durations row h.spans r)

  pub add_step_dwell-IsOpen :
      (row : OutStepDwell)
      → IsDwell iv.order_key iv.is_production row
      → IsOpen severity n (add_step_dwell iv row)
  unfolding add_step_dwell
  add_step_dwell-IsOpen row r =
      assumption (All-snoc (IsDwell iv.order_key iv.is_production) iv.step_dwells row h.dwells r)

  pub add_step_actuators-IsOpen :
      (rows : List OutStepActuator)
      → All (IsActuator iv.order_key) rows
      → IsOpen severity n (add_step_actuators iv rows)
  unfolding add_step_actuators
  add_step_actuators-IsOpen rows r =
      assumption (All-append (IsActuator iv.order_key) iv.step_actuators rows h.actuators r)

  pub add_toggle-IsOpen :
      (row : OutSensorToggle) → row.order_key ≡ iv.order_key → IsOpen severity n (add_toggle iv row)
  unfolding add_toggle
  add_toggle-IsOpen row r =
      assumption (All-snoc (λ s. s.order_key ≡ iv.order_key) iv.toggles row h.toggle_rows r)

  pub add_config-IsOpen :
      (row : OutConfigChange) → row.order_key ≡ iv.order_key → IsOpen severity n (add_config iv row)
  unfolding add_config
  add_config-IsOpen row r =
      assumption (All-snoc (λ c. c.order_key ≡ iv.order_key) iv.configs row h.config_rows r)

  pub add_door_event-IsOpen :
      (row : OutDoorEvent)
      → IsDoorEvent iv.order_key row
      → IsOpen severity n (add_door_event iv row)
  unfolding add_door_event
  add_door_event-IsOpen row r =
      assumption (All-snoc (IsDoorEvent iv.order_key) iv.door_events row h.doors r)

  pub note_order-IsOpen : (o : SrcOrder) → IsOpen severity n (note_order iv o)
  unfolding note_order
  note_order-IsOpen o = assumption

  pub note_event-IsOpen : (e : SrcFsmEvent) → IsOpen severity (suc n) (note_event iv e)
  unfolding note_event
  note_event-IsOpen e =
      let counted : suc iv.fsm_event_count ≡ length iv.events + suc n =
        omega (arith, h.event_count) in
      assumption counted

  forced-fits :
      (forced : String)
      → (forced ≡ "") ⊎ (fits iv.is_production forced ≡ true)
      → fits iv.is_production (if str_eq forced "" then iv.result else forced) ≡ true
  forced-fits forced ok = ground (arith, eq_iff forced "", h.result_fits)

  pub finish-IsOpen :
      (at_ms : ℕ) (forced : String)
      → (forced ≡ "") ⊎ (fits iv.is_production forced ≡ true)
      → IsOpen severity n (finish iv at_ms forced)
  unfolding finish
  finish-IsOpen at_ms forced ok = assumption (forced-fits forced ok)

module _ {severity : String → String} {n : ℕ} (iv : Interval) (h : IsOpen severity (suc n) iv) where
  pub add_event-IsOpen :
      (row : OutFsmEvent) → row.order_key ≡ iv.order_key → IsOpen severity n (add_event iv row)
  unfolding add_event
  add_event-IsOpen row r =
      let counted : iv.fsm_event_count ≡ length (iv.events ++ row ∷ []) + n =
        omega (arith, h.event_count, length-append {0} iv.events (row ∷ [])) in
      assumption (All-snoc (λ e. e.order_key ≡ iv.order_key) iv.events row h.event_rows r, counted)

count_type-snoc :
    (k : String) (fs : List OutFaultEvent) (f : OutFaultEvent)
    → count_type k (fs ++ f ∷ []) ≡ count_type k fs + (if str_eq f.fault_type k then 1 else 0)
unfolding count_type
count_type-snoc k [] f = omega arith
count_type-snoc k (g ∷ fs) f = omega (arith, count_type-snoc k fs f)

last_raised-snoc :
    (fs : List OutFaultEvent) (f : OutFaultEvent) → last_raised (fs ++ f ∷ []) ≡ some f.raised_at_ms
unfolding last_raised
last_raised-snoc [] f = refl
last_raised-snoc (g ∷ fs) f = rw (last_raised-snoc fs f)

first_raised-snoc :
    (fs : List OutFaultEvent) (f : OutFaultEvent)
    → first_raised (fs ++ f ∷ [])
      ≡ (elim (first_raised fs) [ none ↦ some f.raised_at_ms | some ms ↦ some ms ])
unfolding first_raised
first_raised-snoc [] f = refl
first_raised-snoc (g ∷ fs) f = refl

module _ {severity : String → String} {n : ℕ} (iv : Interval) (h : IsOpen severity n iv) where
  add_fault-tallies :
      (f : OutFaultEvent) (k : String)
      → lookup_or 0 k (add_fault iv f).fault_type_counts ≡ count_type k (add_fault iv f).faults
  unfolding add_fault
  add_fault-tallies f k = ground (
    arith,
    lookup-insert f.fault_type k (suc (lookup_or 0 f.fault_type iv.fault_type_counts))
        iv.fault_type_counts,
    eq_iff f.fault_type k,
    h.tallies k,
    h.tallies f.fault_type,
    count_type-snoc k iv.faults f,
  )

  add_fault-first :
      (f : OutFaultEvent) → (add_fault iv f).first_fault_ms ≡ first_raised (add_fault iv f).faults
  unfolding add_fault
  add_fault-first f = rw h.first_fault (sym (first_raised-snoc iv.faults f))

  pub add_fault-IsOpen :
      (f : OutFaultEvent) → IsFault severity iv.order_key f → IsOpen severity n (add_fault iv f)
  unfolding add_fault
  add_fault-IsOpen f r =
      let counted : suc iv.fault_count ≡ length (iv.faults ++ f ∷ []) =
        omega (arith, h.fault_count, length-append {0} iv.faults (f ∷ [])) in
      assumption (
        All-snoc (IsFault severity iv.order_key) iv.faults f h.fault_rows r,
        counted,
        add_fault-tallies f,
        add_fault-first f,
        sym (last_raised-snoc iv.faults f),
      )

  pub emit_dwell-IsOpen :
      (d : OpenDwell) (at_ms : ℕ) → IsOpenDwell d → IsOpen severity n (emit_dwell iv d at_ms)
  unfolding emit_dwell step_dwell
  emit_dwell-IsOpen d at_ms lane = elim (Bool-cases (leb at_ms d.started_ms)) [
    | inl early ↦ rw early h
    | inr late ↦ elim (Bool-cases (emits_dwell d.state iv.is_production)) [
      | inl kept ↦
          rw (late, kept)
            (add_step_dwell-IsOpen iv h _ (refl, leb→lt _ _ late, omega tests, lane, kept))
      | inr dropped ↦ rw (late, dropped) h
    ]
  ]

  pub state_duration-IsSpan :
      (s : OpenStateSpan) (at_ms : ℕ) (reason : String)
      → s.entered_ms < at_ms
      → IsSpan iv.order_key (state_duration iv.order_key s at_ms reason)
  unfolding state_duration
  state_duration-IsSpan s at_ms reason late = (refl, late, omega arith)

pub new_interval-IsOpen :
    (severity : String → String) (order_key : String) (is_production : Bool) (at_ms : ℕ)
    (result : String)
    → fits is_production result ≡ true
    → IsOpen severity 0 (new_interval order_key is_production at_ms result)
unfolding new_interval count_type first_raised last_raised lookup
new_interval-IsOpen severity order_key is_production at_ms result ok =
    let none_yet : (k : String) → ◌≡◌ {A = ℕ} 0 0 = λ k. refl in
    let zero_rows : ◌≡◌ {A = ℕ} 0 (0 + 0) = omega arith in assumption (ok, none_yet, zero_rows)
