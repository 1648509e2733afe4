-- ===== src/Rollup/Machine.antt =====
-- The conflict clause never applies to machine rows, whose key is NULL.
use canebot_projector_repo.Base.{
  ℕ, suc, ◌+◌, ◌≡◌, refl, ◌∙◌, String, Bool, true, false, none, List, [], ◌∷◌, ◌++◌, filter, length,
  map, All, arith, Bool-cases, inl, inr, sort, sort_strings, ap, if◌then◌else◌,
}
use canebot_projector_repo.Writer.Tables.{DwellRow, FaultRow, RollupRow, Replica}
use canebot_projector_repo.Writer.Marks.{guard, set_watermark}
use canebot_projector_repo.Writer.Keys.{conflicts, has_key, insert_rollup, insert_rollups}
use canebot_projector_repo.Rollup.Buckets.{hour_ms, day_ms}
use canebot_projector_repo.Rollup.Groups.{
  faults_in, fault_types, dwells_in, step_keys, key_lt, StepKey, fault_type_row, fault_type_rows,
  emit_fault_type_rollups, step_row, step_rows, emit_step_rollups,
}
use canebot_projector_repo.Rollup.Totals.{is_of}
use canebot_projector_repo.Rollup.Derived.{hour_row, emit_hour_bucket, day_row, emit_day_bucket}

-- How many machine rows the bucket has.
abbrev pub machine_rows : String → ℕ → List RollupRow → ℕ
machine_rows grain start ws = length (filter (is_of "machine" grain start) ws)

machine_rows-snoc :
    (grain : String) (start : ℕ) (ws : List RollupRow) (x : RollupRow)
    → machine_rows grain start (ws ++ x ∷ [])
      ≡ machine_rows grain start ws + machine_rows grain start (x ∷ [])
machine_rows-snoc grain start [] x = omega arith
machine_rows-snoc grain start (w ∷ ws) x = elim (Bool-cases (is_of "machine" grain start w)) [
  | inl e ↦ rw e (omega (arith, machine_rows-snoc grain start ws x))
  | inr e ↦ rw e (machine_rows-snoc grain start ws x)
]

has_key-none : (ws : List RollupRow) (x : RollupRow) → x.dim_key ≡ none → has_key x ws ≡ false
unfolding has_key conflicts
has_key-none [] x e = refl
has_key-none (w ∷ ws) x e = ground (arith, e, has_key-none ws x e)

insert_rollups-machine :
    (grain : String) (start : ℕ) (ws xs : List RollupRow)
    → All (λ x. is_of "machine" grain start x ≡ false) xs
    → machine_rows grain start (insert_rollups ws xs) ≡ machine_rows grain start ws
unfolding insert_rollups insert_rollup
insert_rollups-machine grain start ws [] h = refl
insert_rollups-machine grain start ws (x ∷ xs) h = elim (Bool-cases (has_key x ws)) [
  | inl e ↦ simp e (insert_rollups-machine grain start ws xs h.1)
  | inr e ↦
      simp e (insert_rollups-machine grain start (ws ++ x ∷ []) xs h.1)
      ∙ machine_rows-snoc grain start ws x
      ∙ rw h.0 (omega arith)
]

fault_type_rows-others :
    (grain g : String) (start b ts : ℕ) (found : List FaultRow) (ks : List String)
    → All (λ x. is_of "machine" g b x ≡ false) (map (fault_type_row grain start ts found) ks)
unfolding fault_type_row
fault_type_rows-others grain g start b ts found [] = tt
fault_type_rows-others grain g start b ts found (k ∷ ks) =
    (refl, fault_type_rows-others grain g start b ts found ks)

step_rows-others :
    (grain g : String) (start b ts : ℕ) (found : List DwellRow) (ks : List StepKey)
    → All (λ x. is_of "machine" g b x ≡ false) (map (step_row grain start ts found) ks)
unfolding step_row
step_rows-others grain g start b ts found [] = tt
step_rows-others grain g start b ts found ((l, s, n) ∷ ks) =
    (refl, step_rows-others grain g start b ts found ks)

fault_type_rollups-machine :
    (grain : String) (start end ts : ℕ) (r : Replica)
    → machine_rows grain start (emit_fault_type_rollups grain start end ts r).rollups
      ≡ machine_rows grain start r.rollups
unfolding emit_fault_type_rollups fault_type_rows
fault_type_rollups-machine grain start end ts r =
    let found = faults_in start end r.fault_events in
    insert_rollups-machine grain start r.rollups (fault_type_rows grain start end ts r.fault_events)
      (fault_type_rows-others grain grain start start ts found (sort_strings (fault_types found)))

step_rollups-machine :
    (grain : String) (start end ts : ℕ) (r : Replica)
    → machine_rows grain start (emit_step_rollups grain start end ts r).rollups
      ≡ machine_rows grain start r.rollups
unfolding emit_step_rollups step_rows
step_rollups-machine grain start end ts r =
    let found = dwells_in start end r.step_dwells in
    insert_rollups-machine grain start r.rollups (step_rows grain start end ts r.step_dwells)
      (step_rows-others grain grain start start ts found (sort key_lt (step_keys found)))

insert_machine :
    (grain : String) (start : ℕ) (ws : List RollupRow) (x : RollupRow)
    → x.dim_key ≡ none
    → is_of "machine" grain start x ≡ true
    → machine_rows grain start (insert_rollup ws x) ≡ suc (machine_rows grain start ws)
unfolding insert_rollup
insert_machine grain start ws x e m = rw (has_key-none ws x e) (
    machine_rows-snoc grain start ws x
    ∙ ap {B = ℕ} (λ (b : Bool). machine_rows grain start ws + length (if b then x ∷ [] else [])) m
    ∙ omega arith)

-- Each time that a bucket is emitted, of an hour or of a day, it gets one more machine row, also where
-- it has one: the conflict clause does not stop it.
pub emit_bucket-machine :
    (r : Replica) (b : ℕ)
    → (machine_rows "hour" b (emit_hour_bucket r b).rollups ≡ suc (machine_rows "hour" b r.rollups))
      × (machine_rows "day" b (emit_day_bucket r b).rollups ≡ suc (machine_rows "day" b r.rollups))
unfolding emit_hour_bucket emit_day_bucket hour_row day_row
emit_bucket-machine r b =
    let hour_ts = guard r.marks "hourly_rollups" (b + hour_ms) in
    let hour = hour_row r b hour_ts in
    let r' = record r {
      rollups = insert_rollup r.rollups hour;
      marks = set_watermark r.marks "hourly_rollups" hour_ts;
    } in
    let day_ts = guard r.marks "daily_rollups" (b + day_ms) in
    let day = day_row r b day_ts in
    let r'' = record r { rollups = insert_rollup r.rollups day } in
    (
      step_rollups-machine "hour" b (b + hour_ms) hour_ts
            (emit_fault_type_rollups "hour" b (b + hour_ms) hour_ts r')
          ∙ fault_type_rollups-machine "hour" b (b + hour_ms) hour_ts r'
          ∙ insert_machine "hour" b r.rollups hour refl (ground arith),
      step_rollups-machine "day" b (b + day_ms) day_ts
            (emit_fault_type_rollups "day" b (b + day_ms) day_ts r'')
          ∙ fault_type_rollups-machine "day" b (b + day_ms) day_ts r''
          ∙ insert_machine "day" b r.rollups day refl (ground arith),
    )
