-- ===== src/Pipeline/Drained.antt =====
-- Draining pulses never fails, and keeps the replica consistent.
use canebot_projector_repo.Base.{
  ℕ, ◌≡◌, refl, sym, subst, true, false, Option, none, some, List, [], ◌∷◌, str_eq, ◌==◌,
  Bool-cases, Option-cases, inl, inr, if◌then◌else◌,
}
use canebot_projector_repo.Rows.{SrcActuatorInterval, unix_milli}
use canebot_projector_repo.Writer.Tables.{Replica}
use canebot_projector_repo.Writer.Pulses.{CycleContext, cycle_context, write_actuator_interval}
use canebot_projector_repo.Writer.Consistency.{IsConsistent}
use canebot_projector_repo.Writer.Upkeep.{write_actuator_interval-IsConsistent}
use canebot_projector_repo.Pipeline.Actuators.{
  closed_after, pulse_duration, out_actuator_interval, Drained, drain_rows, drain_actuators,
}

-- The rest of a round, behind the lookup of the cycle.
abbrev round :
    Replica → ℕ → SrcActuatorInterval → List SrcActuatorInterval → Option CycleContext → Drained
round r high a rows o = elim o [
  | none ↦ record { replica = r; high = high; ok = true }
  | some context ↦
      if pulse_duration a == 0
      then drain_rows r (unix_milli a.ended) rows
      else elim (write_actuator_interval r (out_actuator_interval a (pulse_duration a)) context) [
        | none ↦ record { replica = r; high = high; ok = false }
        | some out ↦ drain_rows out (unix_milli a.ended) rows
      ]
]

-- The rest of a round, behind the insertion.
abbrev written : Replica → ℕ → ℕ → List SrcActuatorInterval → Option Replica → Drained
written r high ended rows o = elim o [
  | none ↦ record { replica = r; high = high; ok = false }
  | some out ↦ drain_rows out ended rows
]

abbrev IsDrained : Drained → Type 0
IsDrained d = (d.ok ≡ true) × IsConsistent d.replica

written-IsDrained :
    (r : Replica) (high : ℕ) (a : SrcActuatorInterval) (rows : List SrcActuatorInterval)
    (context : CycleContext)
    → cycle_context r.cycles a.order_key ≡ some context
    → IsConsistent r
    → ((out : Replica) → IsConsistent out → IsDrained (drain_rows out (unix_milli a.ended) rows))
    → IsDrained (
        written r high
          (unix_milli a.ended)
          rows
          (write_actuator_interval r (out_actuator_interval a (pulse_duration a)) context))
unfolding out_actuator_interval
written-IsDrained r high a rows context e h next =
    let (out, w, ho, _) =
      write_actuator_interval-IsConsistent r (out_actuator_interval a (pulse_duration a)) context e
        h in
    subst (λ o. IsDrained (written r high (unix_milli a.ended) rows o)) (sym w) (next out ho)

round-IsDrained :
    (r : Replica) (high : ℕ) (a : SrcActuatorInterval) (rows : List SrcActuatorInterval)
    → IsConsistent r
    → ((out : Replica) → IsConsistent out → IsDrained (drain_rows out (unix_milli a.ended) rows))
    → IsDrained (round r high a rows (cycle_context r.cycles a.order_key))
round-IsDrained r high a rows h next = elim (Option-cases (cycle_context r.cycles a.order_key)) [
  | inl c ↦ rw c (refl, h)
  | inr (context, c) ↦ elim (Bool-cases (pulse_duration a == 0)) [
    | inl z ↦ rw (c, z) (next r h)
    | inr z ↦ rw (c, z) (written-IsDrained r high a rows context c h next)
  ]
]

drain_rows-IsDrained :
    (rows : List SrcActuatorInterval) (r : Replica) (high : ℕ)
    → IsConsistent r
    → IsDrained (drain_rows r high rows)
unfolding drain_rows
drain_rows-IsDrained [] r high h = (refl, h)
drain_rows-IsDrained (a ∷ rows) r high h = elim (Bool-cases (str_eq a.order_key "")) [
  | inl e ↦ simp e (drain_rows-IsDrained rows r high h)
  | inr e ↦ simp e (
      round-IsDrained r high a rows h
        (λ out ho. drain_rows-IsDrained rows out (unix_milli a.ended) ho))
]

-- Draining the closed pulses of the source into a consistent replica never fails, and leaves the
-- replica consistent.
pub drain_actuators-IsConsistent :
    (batch_size : ℕ) (r : Replica) (cursor : ℕ) (rows : List (Option SrcActuatorInterval))
    → IsConsistent r
    → let d = drain_actuators batch_size r cursor rows in (d.ok ≡ true) × IsConsistent d.replica
unfolding drain_actuators
drain_actuators-IsConsistent batch_size r cursor rows h =
    let (ok, c) = drain_rows-IsDrained (closed_after batch_size cursor rows) r cursor h in
    simp ok (refl, c)
