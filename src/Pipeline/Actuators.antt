-- ===== src/Pipeline/Actuators.antt =====
-- `ClosedActuatorIntervalsAfter` of cmd/projector/reader.go and `drainActuators` of
-- cmd/projector/main.go: closed pulses, from the source to the replica.
use canebot_projector_repo.Base.{
  ℕ, zero, suc, ◌-◌, ◌*◌, ◌/◌, Bool, true, false, Option, none, some, List, [], ◌∷◌, pos, negsuc,
  filter, sort, str_eq, ltb, ◌==◌, if◌then◌else◌,
}
use canebot_projector_repo.Rows.{SrcActuatorInterval, OutActuatorInterval, unix_milli}
use canebot_projector_repo.Writer.Tables.{Replica}
use canebot_projector_repo.Writer.Pulses.{cycle_context, write_actuator_interval}

unfoldable pub take {ℓ} : {A : Type ℓ} → ℕ → List A → List A
take zero xs = []
take (suc n) [] = []
take (suc n) (x ∷ xs) = x ∷ take n xs

-- `sortActuatorsByEnd`
unfoldable pub ended_before : SrcActuatorInterval → SrcActuatorInterval → Bool
ended_before a b = ltb a.ended b.ended

-- The rows whose times can be read; the others are passed over.
unfoldable pub read_pulses : List (Option SrcActuatorInterval) → List SrcActuatorInterval
read_pulses [] = []
read_pulses (none ∷ rows) = read_pulses rows
read_pulses (some a ∷ rows) = a ∷ read_pulses rows

-- `rows` are the closed rows of the source in the order of ids: none where a time cannot be read.
unfoldable pub closed_after : ℕ → ℕ → List (Option SrcActuatorInterval) → List SrcActuatorInterval
unfolding read_pulses take ended_before sort
closed_after batch_size after_ended_ms rows =
    let fetched = read_pulses (take (batch_size * 4) rows) in
    let new =
      filter (λ (a : SrcActuatorInterval). ltb after_ended_ms (unix_milli a.ended)) fetched in
    take batch_size (sort ended_before new)

-- The recorded duration if it is positive, and otherwise the time between the ends; 0 where that is
-- not positive.
unfoldable pub pulse_duration : SrcActuatorInterval → ℕ
pulse_duration a = elim a.duration_ms [
  | none ↦ (a.ended - a.started) / 1000000
  | some (negsuc n) ↦ (a.ended - a.started) / 1000000
  | some (pos zero) ↦ (a.ended - a.started) / 1000000
  | some (pos (suc n)) ↦ suc n
]

unfoldable pub to_ms : Option ℕ → Option ℕ
to_ms none = none
to_ms (some t) = some (unix_milli t)

unfoldable pub out_actuator_interval : SrcActuatorInterval → ℕ → OutActuatorInterval
unfolding to_ms
out_actuator_interval a duration = record {
  started_at_ms = unix_milli a.started;
  ended_at_ms = unix_milli a.ended;
  duration_ms = duration;
  order_key = a.order_key;
  src_id = a.id;
  revision = 0;
  output_id = a.output_id;
  output_name = a.output_name;
  started_state = a.started_state;
  started_step = a.started_step;
  started_send_ok = a.started_send_ok;
  ended_state = a.ended_state;
  ended_step = a.ended_step;
  ended_send_ok = a.ended_send_ok;
  fault_type = a.fault_type;
  fault_message = a.fault_message;
  fault_raised_at_ms = to_ms a.fault_raised;
  fault_cleared_at_ms = to_ms a.fault_cleared;
}

-- What the loop has come to: the replica, the end of the last row that was dealt with, and whether no
-- row was refused.
pub record Drained : Type 0 where
  pub replica : Replica
  pub high : ℕ
  pub ok : Bool

-- The loop over the rows. It skips rows without an order, stops at a row whose cycle is not written
-- yet, and passes over a row without a duration.
unfoldable pub drain_rows : Replica → ℕ → List SrcActuatorInterval → Drained
unfolding pulse_duration out_actuator_interval
drain_rows r high [] = record { replica = r; high = high; ok = true }
drain_rows r high (a ∷ rows) =
    if str_eq a.order_key ""
    then drain_rows r high rows
    else elim (cycle_context r.cycles a.order_key) [
      | none ↦ record { replica = r; high = high; ok = true }
      | some context ↦
          if pulse_duration a == 0
          then drain_rows r (unix_milli a.ended) rows
          else elim (write_actuator_interval r (out_actuator_interval a (pulse_duration a))
              context) [
                | none ↦ record { replica = r; high = high; ok = false }
                | some out ↦ drain_rows out (unix_milli a.ended) rows
              ]
    ]

-- The replica, the cursor and whether the pass succeeded; the cursor is saved only if it did.
unfoldable pub drain_actuators : ℕ → Replica → ℕ → List (Option SrcActuatorInterval) → Drained
unfolding closed_after drain_rows
drain_actuators batch_size r cursor rows =
    let d = drain_rows r cursor (closed_after batch_size cursor rows) in
    if d.ok then d else record d { high = cursor }
