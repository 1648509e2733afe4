-- ===== src/Pipeline/Collected.antt =====
-- What `collect` reads, and where the cursors stand that a tick saves.
use canebot_projector_repo.Base.{
  ℕ, zero, suc, ◌≤◌, ◌<◌, ◌≡◌, refl, sym, subst, String, Bool, some, List, [], ◌∷◌, map, filter,
  All, All-append, arith, ltb, ltb→lt, ◌==◌, Bool-cases, Option-cases, inl, inr, if◌then◌else◌,
}
use canebot_projector_repo.Rows.{SrcOrder, SrcFsmEvent, SrcFault, SrcSensorToggle, SrcStepRun}
use canebot_projector_repo.Tracker.State.{Tracker}
use canebot_projector_repo.Tracker.Invariant.Defs.{OnSome}
use canebot_projector_repo.Pipeline.Merge.{TimelineItem, concat, merge}
use canebot_projector_repo.Pipeline.Cursors.{AreInIdOrder}
use canebot_projector_repo.Pipeline.Once.{Pairs, Differ, AreAbove, save_cursor-IsBetween}
use canebot_projector_repo.Pipeline.Actuators.{take}
use canebot_projector_repo.Pipeline.Store.{Store, cursor}
use canebot_projector_repo.Pipeline.Reader.{
  SourceRow, Source, parsed_rows, rows_after, without_faults, order_item, event_item, step_run_item,
  fault_item, toggle_item,
}
use canebot_projector_repo.Pipeline.Collect.{Env, batch, step_run_row, step_run_rows, collect}
use canebot_projector_repo.Pipeline.Batches.{run_item, batches_of, collect-OnSome}
use canebot_projector_repo.Pipeline.Tick.{save_cursor}

-- The id that a row is read with is the one that it stands under.
abbrev pub HasIds {ℓ} : {A : Type ℓ} → (A → ℕ) → List (SourceRow A) → Type 0
HasIds id_of = All (λ x. OnSome (λ a. id_of a ≡ x.id) x.row)

module _ {ℓ} {A : Type ℓ} (id_of : A → ℕ) where
  take-All {κ} : {B : Type κ} (P : B → Type 0) (n : ℕ) (xs : List B) → All P xs → All P (take n xs)
  unfolding take
  take-All P zero xs h = tt
  take-All P (suc n) [] h = tt
  take-All P (suc n) (x ∷ xs) h = (h.0, take-All P n xs h.1)

  -- A row of the query, with its id behind the cursor.
  abbrev IsFound : ℕ → SourceRow A → Type 0
  IsFound after x = (after < x.id) × OnSome (λ a. id_of a ≡ x.id) x.row

  filter-IsFound :
      (after : ℕ) (xs : List (SourceRow A))
      → HasIds id_of xs
      → All (IsFound after) (filter (λ (x : SourceRow A). ltb after x.id) xs)
  filter-IsFound after [] h = tt
  filter-IsFound after (x ∷ xs) h = elim (Bool-cases (ltb after x.id)) [
    | inl e ↦ rw e ((ltb→lt _ _ e, h.0), filter-IsFound after xs h.1)
    | inr e ↦ rw e (filter-IsFound after xs h.1)
  ]

  parsed-above :
      (after : ℕ) (xs : List (SourceRow A))
      → All (IsFound after) xs
      → All (λ a. after < id_of a) (parsed_rows xs)
  unfolding parsed_rows
  parsed-above after [] h = tt
  parsed-above after (x ∷ xs) h = elim (Option-cases x.row) [
    | inl e ↦ rw (e, parsed_rows) (parsed-above after xs h.1)
    | inr (a, e) ↦
        let same : id_of a ≡ x.id = subst (OnSome (λ a. id_of a ≡ x.id)) e h.0.1 in
        rw (e, parsed_rows) (omega (arith, same, h.0.0), parsed-above after xs h.1)
  ]

  rows_after-above :
      (batch_size after : ℕ) (xs : List (SourceRow A))
      → HasIds id_of xs
      → All (λ a. after < id_of a) (rows_after batch_size after xs)
  unfolding rows_after
  rows_after-above batch_size after xs h =
      parsed-above after _ (take-All (IsFound after) batch_size _ (filter-IsFound after xs h))

-- The table of a kind of items.
abbrev pub table_of : ℕ → String
table_of k =
    if k == 0
    then "orders"
    else if k == 1
    then "fsm_events"
    else if k == 2
    then "fsm_step_runs"
    else if k == 3
    then "faults"
    else "sensor_input_toggles"

-- The item lies behind the cursor of its table.
abbrev pub IsUnread : Store → TimelineItem → Type 0
IsUnread st x = (cursor st (table_of x.kind)).last_src_id < x.src_id

module _ {ℓ} {A : Type ℓ} (item : A → TimelineItem) (id_of : A → ℕ) (k : ℕ)
    (kind_eq : (a : A) → (item a).kind ≡ k) (id_eq : (a : A) → (item a).src_id ≡ id_of a)
    (st : Store) where
  map-IsUnread :
      (xs : List A)
      → All (λ a. (cursor st (table_of k)).last_src_id < id_of a) xs
      → All (IsUnread st) (map item xs)
  map-IsUnread [] h = tt
  map-IsUnread (x ∷ xs) h = (
    subst (λ j. (cursor st (table_of j)).last_src_id < (item x).src_id) (sym (kind_eq x))
        (omega (arith, id_eq x, h.0)),
    map-IsUnread xs h.1,
  )

  batch-IsUnread :
      (batch_size : ℕ) (rows : List (SourceRow A))
      → HasIds id_of rows
      → All (IsUnread st) (batch item batch_size st (table_of k) rows)
  unfolding batch
  batch-IsUnread batch_size rows h =
      map-IsUnread _ (rows_after-above id_of batch_size (cursor st (table_of k)).last_src_id rows h)

-- The rows of all tables have their ids.
pub record HasAllIds (src : Source) : Type 0 where
  pub orders : OnSome (HasIds (λ (o : SrcOrder). o.id)) src.orders
  pub events : OnSome (HasIds (λ (e : SrcFsmEvent). e.id)) src.fsm_events
  pub faults : OnSome (HasIds (λ (f : SrcFault). f.id)) src.faults
  pub toggles : OnSome (HasIds (λ (s : SrcSensorToggle). s.id)) src.sensor_input_toggles
  pub runs : OnSome (HasIds (λ (s : SrcStepRun). s.id)) src.fsm_step_runs

step_run_row-id :
    (step_run_faults : Bool) (sr : SrcStepRun) → (step_run_row step_run_faults sr).id ≡ sr.id
unfolding step_run_row without_faults
step_run_row-id step_run_faults sr = ground arith

module _ (env : Env) (t : Tracker) (st : Store) where
  batches-AreUnread :
      (orders : List (SourceRow SrcOrder)) (events : List (SourceRow SrcFsmEvent))
      (faults : List (SourceRow SrcFault)) (toggles : List (SourceRow SrcSensorToggle))
      (runs : List (SourceRow SrcStepRun))
      → HasIds (λ (o : SrcOrder). o.id) orders
      → HasIds (λ (e : SrcFsmEvent). e.id) events
      → HasIds (λ (f : SrcFault). f.id) faults
      → HasIds (λ (s : SrcSensorToggle). s.id) toggles
      → HasIds (λ (s : SrcStepRun). s.id) runs
      → All (IsUnread st) (concat (batches_of env t st orders events faults toggles runs))
  unfolding order_item event_item fault_item toggle_item step_run_item
  batches-AreUnread orders events faults toggles runs ho he hf ht hr =
      let n = env.batch_size in
      All-append _ _ _
        (batch-IsUnread order_item (λ (o : SrcOrder). o.id) 0 (λ a. refl) (λ a. refl) st n orders
          ho)
        (All-append _ _ _
          (batch-IsUnread event_item (λ (e : SrcFsmEvent). e.id) 1 (λ a. refl) (λ a. refl) st n
            events he)
          (All-append _ _ _
            (batch-IsUnread fault_item (λ (f : SrcFault). f.id) 3 (λ a. refl) (λ a. refl) st n
              faults hf)
            (All-append _ _ _
              (batch-IsUnread toggle_item (λ (s : SrcSensorToggle). s.id) 4 (λ a. refl) (λ a. refl)
                st n toggles ht)
              (All-append _ _ _
                (batch-IsUnread (run_item env t) (λ (s : SrcStepRun). s.id) 2 (λ a. refl)
                  (step_run_row-id t.step_run_faults) st n runs hr)
                tt))))

step_run_rows-HasIds :
    (t : Tracker) (src : Source)
    → HasAllIds src
    → OnSome (HasIds (λ (s : SrcStepRun). s.id)) (step_run_rows t src)
unfolding step_run_rows
step_run_rows-HasIds t src h = elim (Bool-cases t.use_step_runs) [
  | inl e ↦ rw e h.runs
  | inr e ↦ rw e tt
]

-- What is collected, if every read succeeds, lies behind the cursors.
collect-AreUnread :
    (env : Env) (src : Source) (t : Tracker) (st : Store)
    → HasAllIds src
    → OnSome (λ bs. All (IsUnread st) (concat bs)) (collect env src t st)
collect-AreUnread env src t st h =
    collect-OnSome env src t st (HasIds (λ (o : SrcOrder). o.id))
      (HasIds (λ (e : SrcFsmEvent). e.id)) (HasIds (λ (f : SrcFault). f.id))
      (HasIds (λ (s : SrcSensorToggle). s.id)) (HasIds (λ (s : SrcStepRun). s.id))
      (λ bs. All (IsUnread st) (concat bs)) h.orders h.events h.faults h.toggles
      (step_run_rows-HasIds t src h) (batches-AreUnread env t st)

AreUnread-AreAbove :
    (st : Store) (k : ℕ) (xs : List TimelineItem)
    → All (IsUnread st) xs
    → AreAbove k (cursor st (table_of k)).last_src_id xs
AreUnread-AreAbove st k [] h = tt
AreUnread-AreAbove st k (x ∷ xs) h = (
  λ e. subst (λ j. (cursor st (table_of j)).last_src_id < x.src_id) e h.0,
  AreUnread-AreAbove st k xs h.1,
)

-- Of every table: where the ids of a source follow time and none is there twice, the rows that the
-- merge of a tick applies have ids behind the old cursor and up to the one that the tick saves for
-- them, and the rows that it has read and left have ids behind that one.
pub collect-once :
    (env : Env) (src : Source) (t : Tracker) (st : Store) (batches : List (List TimelineItem))
    (k : ℕ)
    → collect env src t st ≡ some batches
    → HasAllIds src
    → AreInIdOrder (concat batches)
    → Pairs Differ (concat batches)
    → let (applied, left) = merge env.batch_size batches in
      let c = (cursor st (table_of k)).last_src_id in
      let c' = (cursor (save_cursor applied st k (table_of k)) (table_of k)).last_src_id in
      (c ≤ c')
      × All (λ x. x.kind ≡ k → (c < x.src_id) × (x.src_id ≤ c')) applied
      × AreAbove k c' left
collect-once env src t st batches k e ids order differ =
    save_cursor-IsBetween env.batch_size batches st k (table_of k)
      (AreUnread-AreAbove st k (concat batches) (
        subst (OnSome (λ bs. All (IsUnread st) (concat bs))) e
          (collect-AreUnread env src t st ids)))
      order differ
