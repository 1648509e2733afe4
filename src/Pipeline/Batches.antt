-- ===== src/Pipeline/Batches.antt =====
-- A rule for `collect`: what holds of the batches, from what holds of the tables.
use canebot_projector_repo.Base.{
  ℕ, zero, suc, ◌≡◌, refl, sym, ap, ◌∙◌, String, Bool-cases, inl, inr, Option, none, some, List, [],
  ◌∷◌,
}
use canebot_projector_repo.Rows.{SrcOrder, SrcFsmEvent, SrcFault, SrcSensorToggle, SrcStepRun}
use canebot_projector_repo.Tracker.State.{Tracker}
use canebot_projector_repo.Tracker.Invariant.Defs.{OnSome}
use canebot_projector_repo.Pipeline.Merge.{TimelineItem}
use canebot_projector_repo.Pipeline.Store.{Store}
use canebot_projector_repo.Pipeline.Actuators.{take}
use canebot_projector_repo.Pipeline.Reader.{
  SourceRow, Source, parsed_rows, query_after, rows_after, order_item, event_item, step_run_item,
  fault_item, toggle_item,
}
use canebot_projector_repo.Pipeline.Collect.{
  Env, ◌>>=◌, batch, step_run_row, step_run_rows, collect,
}

-- The item of a step run.
abbrev pub run_item : Env → Tracker → SrcStepRun → TimelineItem
run_item env t sr = step_run_item env.decode (step_run_row t.step_run_faults sr)

-- The batches of the tables' rows.
abbrev pub batches_of :
    Env
    → Tracker
    → Store
    → List (SourceRow SrcOrder)
    → List (SourceRow SrcFsmEvent)
    → List (SourceRow SrcFault)
    → List (SourceRow SrcSensorToggle)
    → List (SourceRow SrcStepRun)
    → List (List TimelineItem)
batches_of env t st os es fs ts rs =
    batch order_item env.batch_size st "orders" os
    ∷ batch event_item env.batch_size st "fsm_events" es
    ∷ batch fault_item env.batch_size st "faults" fs
    ∷ batch toggle_item env.batch_size st "sensor_input_toggles" ts
    ∷ batch (run_item env t) env.batch_size st "fsm_step_runs" rs
    ∷ []

module _ (env : Env) (src : Source) (t : Tracker) (st : Store)
    (O : List (SourceRow SrcOrder) → Type 0) (E : List (SourceRow SrcFsmEvent) → Type 0)
    (F : List (SourceRow SrcFault) → Type 0) (T : List (SourceRow SrcSensorToggle) → Type 0)
    (R : List (SourceRow SrcStepRun) → Type 0) (P : List (List TimelineItem) → Type 0) where
  pub collect-OnSome :
      OnSome O src.orders
      → OnSome E src.fsm_events
      → OnSome F src.faults
      → OnSome T src.sensor_input_toggles
      → OnSome R (step_run_rows t src)
      → ((os : _) (es : _) (fs : _) (ts : _) (rs : _)
          → O os
          → E es
          → F fs
          → T ts
          → R rs
          → P (batches_of env t st os es fs ts rs))
      → OnSome P (collect env src t st)
  unfolding collect
  collect-OnSome ho he hf ht hr k =
      go src.orders src.fsm_events src.faults src.sensor_input_toggles (step_run_rows t src) ho he
        hf ht hr
    where
      go :
          (os : Option (List (SourceRow SrcOrder))) (es : Option (List (SourceRow SrcFsmEvent)))
          (fs : Option (List (SourceRow SrcFault))) (ts : Option (List (SourceRow SrcSensorToggle)))
          (rs : Option (List (SourceRow SrcStepRun)))
          → OnSome O os
          → OnSome E es
          → OnSome F fs
          → OnSome T ts
          → OnSome R rs
          → OnSome P (
              os >>= λ os'. es >>= λ es'. fs >>= λ fs'.
              ts >>= λ ts'. rs >>= λ rs'. some (batches_of env t st os' es' fs' ts' rs'))
      go none es fs ts rs ho he hf ht hr = tt
      go (some os) none fs ts rs ho he hf ht hr = tt
      go (some os) (some es) none ts rs ho he hf ht hr = tt
      go (some os) (some es) (some fs) none rs ho he hf ht hr = tt
      go (some os) (some es) (some fs) (some ts) none ho he hf ht hr = tt
      go (some os) (some es) (some fs) (some ts) (some rs) ho he hf ht hr =
          k os es fs ts rs ho he hf ht hr

batch_nil :
    {A : Type 0} (item : A → TimelineItem) (n : ℕ) (st : Store) (table : String)
    → batch item n st table [] ≡ []
unfolding batch rows_after query_after parsed_rows take
batch_nil item zero st table = refl
batch_nil item (suc n) st table = refl

step_run_rows-none :
    (t : Tracker) (src : Source) → src.fsm_step_runs ≡ some [] → step_run_rows t src ≡ some []
unfolding step_run_rows
step_run_rows-none t src e = elim (Bool-cases t.use_step_runs) [
  | inl u ↦ rw u e
  | inr u ↦ rw u refl
]

-- Where the source has no step runs, what is collected does not depend on the tracker.
pub collect-same :
    (env : Env) (src : Source) (t u : Tracker) (st : Store)
    → src.fsm_step_runs ≡ some []
    → collect env src t st ≡ collect env src u st
unfolding collect
collect-same env src t u st e =
    ap (body t) (step_run_rows-none t src e)
    ∙ go src.orders src.fsm_events src.faults src.sensor_input_toggles
    ∙ sym (ap (body u) (step_run_rows-none u src e))
  where
    body : Tracker → Option (List (SourceRow SrcStepRun)) → Option (List (List TimelineItem))
    body v rs = src.orders >>= λ os'. src.fsm_events >>= λ es'. src.faults >>= λ fs'.
        src.sensor_input_toggles >>= λ ts'.
        rs >>= λ rs'. some (batches_of env v st os' es' fs' ts' rs')

    go :
        (os : Option (List (SourceRow SrcOrder))) (es : Option (List (SourceRow SrcFsmEvent)))
        (fs : Option (List (SourceRow SrcFault))) (ts : Option (List (SourceRow SrcSensorToggle)))
        → (os >>= λ os'.
            es >>= λ es'. fs >>= λ fs'. ts >>= λ ts'. some (batches_of env t st os' es' fs' ts' []))
          ≡ (os >>= λ os'. es >>= λ es'.
              fs >>= λ fs'. ts >>= λ ts'. some (batches_of env u st os' es' fs' ts' []))
    go none es fs ts = refl
    go (some os) none fs ts = refl
    go (some os) (some es) none ts = refl
    go (some os) (some es) (some fs) none = refl
    go (some os) (some es) (some fs) (some ts) =
        ap
          (λ (runs : List TimelineItem). some (
            batch order_item env.batch_size st "orders" os
            ∷ batch event_item env.batch_size st "fsm_events" es
            ∷ batch fault_item env.batch_size st "faults" fs
            ∷ batch toggle_item env.batch_size st "sensor_input_toggles" ts
            ∷ runs
            ∷ []))
          (batch_nil (run_item env t) env.batch_size st "fsm_step_runs"
            ∙ sym (batch_nil (run_item env u) env.batch_size st "fsm_step_runs"))
