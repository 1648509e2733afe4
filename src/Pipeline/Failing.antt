-- ===== src/Pipeline/Failing.antt =====
-- What a tick leaves where the source fails it, or where no row of a batch can be parsed.
use canebot_projector_repo.Base.{
  ℕ, zero, suc, ◌∙◌, ◌≡◌, ◌≢◌, refl, sym, ap, subst, String, false, Option, none, some, List, [],
  ◌∷◌, ◌++◌, map, All, All-append, sort-All, arith, ltb, ◌==◌, ==_iff, Bool-cases, inl, inr,
  if◌then◌else◌,
}
use canebot_projector_repo.Tracker.State.{Tracker}
use canebot_projector_repo.Pipeline.Merge.{
  TimelineItem, comes_before, concat, safe_up_to, split, apply_items, applied_id, latest_at, merge,
}
use canebot_projector_repo.Pipeline.Cursors.{split-All}
use canebot_projector_repo.Rows.{SrcOrder, SrcFsmEvent, SrcFault, SrcSensorToggle, SrcStepRun}
use canebot_projector_repo.Pipeline.Store.{Store, cursor, set_cursor}
use canebot_projector_repo.Pipeline.Reader.{
  SourceRow, Source, parsed_rows, query_after, rows_after, order_item, event_item, step_run_item,
  fault_item, toggle_item,
}
use canebot_projector_repo.Pipeline.Collect.{Env, batch, step_run_rows, collect}
use canebot_projector_repo.Pipeline.Batches.{run_item, batches_of, collect-OnSome, collect-same}
use canebot_projector_repo.Tracker.Invariant.Defs.{OnSome}
use canebot_projector_repo.Pipeline.Tick.{
  Projector, Step, ◌>>=◌, config_step, save_cursor, save_cursors, flush_step, actuator_step,
  attribute_step, timeline_step, alive_step, finish_tick, tick,
}

config_step-fails :
    (src : Source) (latest : Option ℕ) (p : Projector) (at : ℕ)
    → latest ≡ some at
    → src.config ≡ none
    → config_step src latest p ≡ (p, false)
unfolding config_step
config_step-fails src none p at l e = cc
config_step-fails src (some _) p at l e = rw (e, config_step) refl

finish_tick-fails :
    (env : Env) (src : Source) (now : ℕ) (applied : List TimelineItem) (p : Projector) (at : ℕ)
    → latest_at none applied ≡ some at
    → src.config ≡ none
    → finish_tick env src now applied p ≡ (p, false)
unfolding finish_tick
finish_tick-fails env src now applied p at l e =
    let latest = latest_at none applied in
    ap
      (λ (s : Step).
        s
        >>= (λ q. flush_step env (record q { st = save_cursors applied q.st }))
        >>= actuator_step env src
        >>= attribute_step
        >>= timeline_step latest
        >>= alive_step now)
      (config_step-fails src latest p at l e)

-- A tick whose config cannot be read, behind rows that were applied, leaves them in the tracker only.
tick-fails :
    (env : Env) (src : Source) (now : ℕ) (p : Projector) (batches : List (List TimelineItem))
    (at : ℕ)
    → collect env src p.trk p.st ≡ some batches
    → let applied = (merge env.batch_size batches).0 in
      latest_at none applied ≡ some at
      → src.config ≡ none
      → tick env src now p ≡ (record p { trk = apply_items env.firmware.io p.trk applied }, false)
unfolding tick
tick-fails env src now p batches at c l e =
    let applied = (merge env.batch_size batches).0 in
    rw (c, tick)
      (finish_tick-fails env src now applied
        (record p { trk = apply_items env.firmware.io p.trk applied }) at l e)

-- A function, applied `n` times.
abbrev pub repeat {ℓ} : {A : Type ℓ} → ℕ → (A → A) → A → A
repeat zero f a = a
repeat (suc n) f a = f (repeat n f a)

-- Ticks over a source that has no step runs and whose config cannot be read apply the same rows again
-- and again: `n` of them, behind rows that a tick applies, leave the tracker as if it had taken the
-- rows `n` times, with the cursors and the replica where they were, and a further one fails as well.
pub tick-config_fails :
    (env : Env) (src : Source) (now : ℕ) (p : Projector) (batches : List (List TimelineItem))
    (at n : ℕ)
    → collect env src p.trk p.st ≡ some batches
    → latest_at none (merge env.batch_size batches).0 ≡ some at
    → src.fsm_step_runs ≡ some []
    → src.config ≡ none
    → let applied = (merge env.batch_size batches).0 in
      let q = repeat n (λ (u : Projector). (tick env src now u).0) p in
      (q ≡ record p { trk = repeat n (λ t. apply_items env.firmware.io t applied) p.trk })
      × ((tick env src now q).1 ≡ false)
tick-config_fails env src now p batches at n c l r e =
    let applied = (merge env.batch_size batches).0 in
    let f = λ (t : Tracker). apply_items env.firmware.io t applied in
    let fails : (u : Projector)
        → u.st ≡ p.st
        → tick env src now u ≡ (record u { trk = f u.trk }, false) =
      λ u same.
        tick-fails env src now u batches at
          (collect-same env src u.trk p.trk u.st r ∙ ap (collect env src p.trk) same ∙ c) l e in
    let all : (k : ℕ)
        → repeat k (λ (u : Projector). (tick env src now u).0) p
          ≡ record p { trk = repeat k f p.trk } =
      λ k. go f fails k in
    (
      all n,
      ap (λ (u : Projector). (tick env src now u).1) (all n)
          ∙ ap (λ (s : Step). s.1) (fails (record p { trk = repeat n f p.trk }) refl),
    )
  where
    go :
        (f : Tracker → Tracker)
        → ((u : Projector) → u.st ≡ p.st → tick env src now u ≡ (record u { trk = f u.trk }, false))
        → (k : ℕ)
        → repeat k (λ (u : Projector). (tick env src now u).0) p
          ≡ record p { trk = repeat k f p.trk }
    go f fails zero = refl
    go f fails (suc k) =
        ap (λ (u : Projector). (tick env src now u).0) (go f fails k)
        ∙ ap (λ (s : Step). s.0) (fails (record p { trk = repeat k f p.trk }) refl)

-- There is no row of the table among the items.
abbrev HasNone : ℕ → List TimelineItem → Type 0
HasNone k = All (λ x. x.kind ≢ k)

split-front :
    (k : ℕ) (safe : Option ℕ) (xs : List TimelineItem) → HasNone k xs → HasNone k (split safe xs).0
split-front k safe xs h = (split-All (λ x. x.kind ≢ k) safe xs h).0

applied_id-none :
    (k : ℕ) (o : Option ℕ) (xs : List TimelineItem) → HasNone k xs → applied_id k o xs ≡ o
unfolding applied_id
applied_id-none k o [] h = refl
applied_id-none k o (x ∷ xs) h = elim (Bool-cases (x.kind == k)) [
  | inl e ↦ absurd (h.0 ((==_iff x.kind k).0 e))
  | inr e ↦ rw e (applied_id-none k o xs h.1)
]

save_cursor-stays :
    (applied : List TimelineItem) (st : Store) (k : ℕ) (table : String)
    → HasNone k applied
    → save_cursor applied st k table ≡ st
unfolding save_cursor
save_cursor-stays applied st k table h =
    ap
      (λ (o : Option ℕ). elim o [
        | none ↦ st
        | some id ↦ if ltb (cursor st table).last_src_id id then set_cursor st table id 0 else st
      ])
      (applied_id-none k none applied h)

map-HasNone {ℓ} :
    {A : Type ℓ} (item : A → TimelineItem) (k : ℕ) (xs : List A)
    → ((a : A) → (item a).kind ≢ k)
    → HasNone k (map item xs)
map-HasNone item k [] n = tt
map-HasNone item k (x ∷ xs) n = (n x, map-HasNone item k xs n)

-- No row of the batch can be parsed.
abbrev pub IsUnparsed : List (SourceRow SrcFsmEvent) → Type 0
IsUnparsed = All (λ x. x.row ≡ none)

parsed_rows-none : (xs : List (SourceRow SrcFsmEvent)) → IsUnparsed xs → parsed_rows xs ≡ []
unfolding parsed_rows
parsed_rows-none [] h = refl
parsed_rows-none (x ∷ xs) h = rw (h.0, parsed_rows) (parsed_rows-none xs h.1)

append-HasNone :
    (k : ℕ) (xs ys : List TimelineItem) → HasNone k xs → HasNone k ys → HasNone k (xs ++ ys)
append-HasNone k = All-append (λ x. x.kind ≢ k)

module _ (env : Env) (t : Tracker) (st : Store) where
  -- The first rows behind the cursor, as many as a batch holds.
  abbrev pub next_events : List (SourceRow SrcFsmEvent) → List (SourceRow SrcFsmEvent)
  next_events = query_after env.batch_size (cursor st "fsm_events").last_src_id

  event_batch :
      (es : List (SourceRow SrcFsmEvent))
      → IsUnparsed (next_events es)
      → HasNone 1 (batch event_item env.batch_size st "fsm_events" es)
  unfolding batch rows_after
  event_batch es h =
      subst (λ xs. HasNone 1 (map event_item xs)) (sym (parsed_rows-none (next_events es) h)) tt

  batch-HasNone :
      {A : Type 0} (item : A → TimelineItem) (table : String) (rows : List (SourceRow A))
      → ((a : A) → (item a).kind ≢ 1)
      → HasNone 1 (batch item env.batch_size st table rows)
  unfolding batch rows_after
  batch-HasNone item table rows n =
      map-HasNone item 1
        (parsed_rows (query_after env.batch_size (cursor st table).last_src_id rows)) n

  batches-HasNone :
      (os : List (SourceRow SrcOrder)) (es : List (SourceRow SrcFsmEvent))
      (fs : List (SourceRow SrcFault)) (ts : List (SourceRow SrcSensorToggle))
      (rs : List (SourceRow SrcStepRun))
      → Unit {0}
      → IsUnparsed (next_events es)
      → Unit {0}
      → Unit {0}
      → Unit {0}
      → HasNone 1 (concat (batches_of env t st os es fs ts rs))
  unfolding order_item fault_item toggle_item step_run_item
  batches-HasNone os es fs ts rs ho he hf ht hr =
      let orders = batch order_item env.batch_size st "orders" os in
      let events = batch event_item env.batch_size st "fsm_events" es in
      let faults = batch fault_item env.batch_size st "faults" fs in
      let toggles = batch toggle_item env.batch_size st "sensor_input_toggles" ts in
      let runs = batch (run_item env t) env.batch_size st "fsm_step_runs" rs in
      append-HasNone 1 orders (events ++ (faults ++ (toggles ++ (runs ++ []))))
        (batch-HasNone order_item "orders" os (λ a e. omega (arith, e)))
        (append-HasNone 1 events (faults ++ (toggles ++ (runs ++ []))) (event_batch es he) (
          append-HasNone 1 faults (toggles ++ (runs ++ []))
            (batch-HasNone fault_item "faults" fs (λ a e. omega (arith, e)))
            (append-HasNone 1 toggles (runs ++ [])
              (batch-HasNone toggle_item "sensor_input_toggles" ts (λ a e. omega (arith, e)))
              (append-HasNone 1 runs []
                (batch-HasNone (run_item env t) "fsm_step_runs" rs (λ a e. omega (arith, e))) tt))))

  any : {A : Type 0} (o : Option A) → OnSome (λ _. Unit {0}) o
  any none = tt
  any (some a) = tt

  -- Where the next events behind the cursor, as many as a batch holds, have timestamps that cannot be
  -- parsed, the cursor stays where it is: the next tick reads the same rows again, and so on.
  pub collect-stalls :
      (src : Source) (events : List (SourceRow SrcFsmEvent)) (batches : List (List TimelineItem))
      → src.fsm_events ≡ some events
      → IsUnparsed (next_events events)
      → collect env src t st ≡ some batches
      → save_cursor (merge env.batch_size batches).0 st 1 "fsm_events" ≡ st
  unfolding merge
  collect-stalls src events batches e h c =
      let holds =
        collect-OnSome env src t st (λ _. Unit {0}) (λ es. IsUnparsed (next_events es))
          (λ _. Unit {0}) (λ _. Unit {0}) (λ _. Unit {0}) (λ bs. HasNone 1 (concat bs))
          (any src.orders) (subst (OnSome (λ es. IsUnparsed (next_events es))) (sym e) h)
          (any src.faults) (any src.sensor_input_toggles) (any (step_run_rows t src))
          batches-HasNone in
      let none_there = subst (OnSome (λ bs. HasNone 1 (concat bs))) c holds in
      save_cursor-stays _ st 1 "fsm_events" (
        split-front 1 (safe_up_to env.batch_size none batches) _
          (sort-All comes_before (λ x. x.kind ≢ 1) (concat batches) none_there))
