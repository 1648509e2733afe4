-- ===== src/Pipeline/Collect.antt =====
-- `collect` of cmd/projector/main.go: one batch from each source table.
use canebot_projector_repo.Writer.Rows.{Firmware}
use canebot_projector_repo.Base.{
  ℕ, String, Bool, Option, none, some, List, [], ◌∷◌, map, if◌then◌else◌,
}
use canebot_projector_repo.Rows.{SrcStepRun, StepRunActuator}
use canebot_projector_repo.Tracker.State.{Tracker}
use canebot_projector_repo.Pipeline.Merge.{TimelineItem}
use canebot_projector_repo.Pipeline.Store.{Store, cursor}
use canebot_projector_repo.Pipeline.Reader.{
  SourceRow, Source, rows_after, without_faults, order_item, event_item, step_run_item, fault_item,
  toggle_item,
}

-- What the projector is given once: the firmware's part, the decoder of actuators, and the flag
-- `-batch`.
pub record Env : Type 0 where
  pub firmware : Firmware
  pub decode : String → List (String × StepRunActuator)
  pub batch_size : ℕ

infixl 5 ◌>>=◌
abbrev pub ◌>>=◌ {ℓ κ} : {A : Type ℓ} {B : Type κ} → Option A → (A → Option B) → Option B
none >>= f = none
some a >>= f = f a

-- A batch of a table, as items.
unfoldable pub batch {ℓ} :
    {A : Type ℓ} → (A → TimelineItem) → ℕ → Store → String → List (SourceRow A) → List TimelineItem
unfolding rows_after cursor
batch item batch_size st table rows =
    map item (rows_after batch_size (cursor st table).last_src_id rows)

-- The faults of step runs are read where their columns are there.
unfoldable pub step_run_row : Bool → SrcStepRun → SrcStepRun
unfolding without_faults
step_run_row step_run_faults sr = if step_run_faults then sr else without_faults sr

-- Step runs are read where the source has them.
unfoldable pub step_run_rows : Tracker → Source → Option (List (SourceRow SrcStepRun))
step_run_rows t src = if t.use_step_runs then src.fsm_step_runs else some []

-- The batches, or none where a read fails.
unfoldable pub collect : Env → Source → Tracker → Store → Option (List (List TimelineItem))
unfolding batch order_item event_item fault_item toggle_item step_run_item step_run_row
    step_run_rows
collect env src t st = do
  orders ← src.orders
  events ← src.fsm_events
  faults ← src.faults
  toggles ← src.sensor_input_toggles
  runs ← step_run_rows t src
  some (
      batch order_item env.batch_size st "orders" orders
      ∷ batch event_item env.batch_size st "fsm_events" events
      ∷ batch fault_item env.batch_size st "faults" faults
      ∷ batch toggle_item env.batch_size st "sensor_input_toggles" toggles
      ∷ batch (λ sr. step_run_item env.decode (step_run_row t.step_run_faults sr)) env.batch_size st
          "fsm_step_runs" runs
      ∷ [])
