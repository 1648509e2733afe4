-- ===== src/Pipeline/Sound.antt =====
-- The parts of a tick keep the whole state sound.
use canebot_projector_repo.Base.{
  ℕ, ◌≡◌, String, Bool, true, false, ◌&&◌, List, [], ◌∷◌, is_some, sort, sort-All, arith,
  Bool-cases, Option-cases, inl, inr, lookup,
}
use canebot_projector_repo.Tracker.State.{Tracker}
use canebot_projector_repo.Tracker.Doors.{IoPins}
use canebot_projector_repo.Tracker.Inputs.{config, apply, ends_before, pending_intervals}
use canebot_projector_repo.Tracker.Invariant.Defs.{IsClosed, IsValid}
use canebot_projector_repo.Tracker.Invariant.Runs.{apply-IsValid}
use canebot_projector_repo.Writer.Tables.{DwellRow, ActuatorRow, Replica}
use canebot_projector_repo.Writer.Pulses.{attribute_pulse, attribute_actuator_pulses}
use canebot_projector_repo.Writer.Consistency.{IsConsistent, HoldAll-map}
use canebot_projector_repo.Pipeline.Intervals.{flush_intervals}
use canebot_projector_repo.Pipeline.Written.{write_intervals-IsConsistent}
use canebot_projector_repo.Pipeline.Merge.{TimelineItem, apply_items}
use canebot_projector_repo.Pipeline.Config.{is_unchanged, tell_change, diff_config, drain_config}
use canebot_projector_repo.Pipeline.Reader.{Source}
use canebot_projector_repo.Pipeline.Collect.{Env}
use canebot_projector_repo.Pipeline.Tick.{Projector, Step, ◌>>=◌, flush_step}

-- The tracker keeps its invariant, and the replica its keys and references.
pub record IsSound (severity : String → String) (p : Projector) : Type 0 where
  pub trk : IsValid severity p.trk
  pub rep : IsConsistent p.rep

-- Every read of the source succeeds.
abbrev pub is_readable : Source → Bool
is_readable src =
    is_some src.orders
    && (is_some src.fsm_events
        && (is_some src.faults
            && (is_some src.sensor_input_toggles
                && (is_some src.fsm_step_runs
                    && (is_some src.config && is_some src.actuator_output_intervals)))))

-- The state behind the step is sound, and the step succeeds where the source can be read.
abbrev pub IsFine : (String → String) → Source → Step → Type 0
IsFine severity src s = IsSound severity s.0 × (is_readable src ≡ true → s.1 ≡ true)

attribute_pulse-key :
    (dwells : List DwellRow) (a : ActuatorRow)
    → (attribute_pulse dwells a).pulse.order_key ≡ a.pulse.order_key
unfolding attribute_pulse
attribute_pulse-key dwells a = ground arith

pub attribute-IsConsistent :
    (r : Replica) → IsConsistent r → IsConsistent (attribute_actuator_pulses r)
unfolding attribute_actuator_pulses
attribute-IsConsistent r h = record {
  orders = h.orders;
  faults = h.faults;
  stamped = h.stamped;
  spans_refer = h.spans_refer;
  dwells_refer = h.dwells_refer;
  faults_refer = h.faults_refer;
  toggles_refer = h.toggles_refer;
  doors_refer = h.doors_refer;
  configs_refer = h.configs_refer;
  pulses_refer =
      HoldAll-map (λ (a : ActuatorRow). a.pulse.order_key) (attribute_pulse r.step_dwells) r.cycles
        r.actuator_intervals (attribute_pulse-key r.step_dwells) h.pulses_refer;
  runs_refer = h.runs_refer;
  keys = h.keys;
}

module _ (severity : String → String) where
  pub apply_items-IsValid :
      (io : IoPins) (t : Tracker) (xs : List TimelineItem)
      → IsValid severity t
      → IsValid severity (apply_items io t xs)
  unfolding apply_items
  apply_items-IsValid io t [] v = v
  apply_items-IsValid io t (x ∷ xs) v =
      apply_items-IsValid io (apply io t x.input) xs (apply-IsValid severity io t x.input v)

  module _ (io : IoPins) (previous : List (String × String)) (at : ℕ) where
    tell_change-IsValid :
        (t : Tracker) (k v : String)
        → IsValid severity t
        → IsValid severity (tell_change previous at t k v)
    unfolding tell_change apply
    tell_change-IsValid t k v h = elim (Option-cases (lookup k previous)) [
      | inl e ↦ rw (e, tell_change) h
      | inr (old, e) ↦ rw (e, tell_change) (apply-IsValid severity io t (config k old v at) h)
    ]

    diff_config-IsValid :
        (t : Tracker) (changed : Bool) (m : List (String × String))
        → IsValid severity t
        → IsValid severity (diff_config previous at t changed m).0
    unfolding diff_config
    diff_config-IsValid t changed [] h = h
    diff_config-IsValid t changed ((k, v) ∷ m) h = elim (Bool-cases (is_unchanged previous k v)) [
      | inl e ↦ simp e (diff_config-IsValid t changed m h)
      | inr e ↦
          simp e (
            diff_config-IsValid (tell_change previous at t k v) true m
              (tell_change-IsValid t k v h))
    ]

    pub drain_config-IsValid :
        (t : Tracker) (m : List (String × String))
        → IsValid severity t
        → IsValid severity (drain_config previous at t m).0
    unfolding drain_config
    drain_config-IsValid t m h = diff_config-IsValid t false m h

  emptied-IsValid : (t : Tracker) → IsValid severity t → IsValid severity (record t { closed = [] })
  emptied-IsValid t v = record {
    classifier = v.classifier;
    working = record { interval = v.working.interval; open_dwells = v.working.open_dwells };
    door = v.door;
    queue = tt;
    idle = v.idle;
  }

  pub flush_step-IsFine :
      (env : Env) (src : Source) (p : Projector)
      → IsSound severity p
      → IsFine severity src (flush_step env p)
  unfolding flush_step flush_intervals pending_intervals
  flush_step-IsFine env src p h =
      let a = sort-All ends_before (IsClosed severity) p.trk.closed h.trk.queue in
      let w =
        write_intervals-IsConsistent severity env.firmware p.rep (sort ends_before p.trk.closed) a
          h.rep in
      (record { trk = emptied-IsValid p.trk h.trk; rep = w.1 }, λ r. w.0)

  module _ (src : Source) where
    -- Steps one behind the other.
    pub bind-IsFine :
        (s : Step) (f : Projector → Step)
        → IsFine severity src s
        → ((p : Projector) → IsSound severity p → IsFine severity src (f p))
        → IsFine severity src (s >>= f)
    bind-IsFine (p, true) f h k = k p h.0
    bind-IsFine (p, false) f h k = h
