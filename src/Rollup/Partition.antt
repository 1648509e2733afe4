-- ===== src/Rollup/Partition.antt =====
-- The rows of a bucket by type of fault, and by step, are the groups of its faults and of its dwells.
use canebot_projector_repo.Base.{
  ℕ, ◌≤◌, ◌≡◌, refl, String, some, List, [], ◌∷◌, ◌++◌, map, filter, length, sort, sort_strings,
  str_eq, str_lt, eq_iff, All, IsIn,
}
use canebot_projector_repo.Writer.Tables.{DwellRow, FaultRow, RollupRow, Replica}
use canebot_projector_repo.Writer.Keys.{AreUniqueKeys}
use canebot_projector_repo.Rollup.Grouping.{sum_of, max_of, group_of}
use canebot_projector_repo.Rollup.Grouped.{items-All, sort-groups-All, sort-groups-IsIn}
use canebot_projector_repo.Rollup.Groups.{
  faults_in, fault_types, of_type, downtime, fault_type_row, fault_type_rows,
  emit_fault_type_rollups, StepKey, step_key, step_dim_key, same_key, key_lt, dwells_in, step_keys,
  of_step, step_row, step_rows, emit_step_rollups,
}
use canebot_projector_repo.Rollup.Totals.{
  occurrences_in, duration_in, IsFresh, emit_fault_type_rollups-total, same_key_iff,
  step_rows-total,
}
use canebot_projector_repo.Rollup.Migrated.{IsHeld, insert_rollups-Grows}

-- The row has the faults of the type: their number, which is not 0, and their downtime.
abbrev pub IsTypeRow : List FaultRow → String → RollupRow → Type 0
IsTypeRow found type w =
    let group = filter (λ (f : FaultRow). str_eq f.fault.fault_type type) found in
    (w.dim_kind ≡ "fault_type")
    × (w.dim_key ≡ some type)
    × (w.occurrences ≡ some (length group))
    × (1 ≤ length group)
    × (w.duration_ms_sum ≡ some (sum_of downtime group))

-- The row has the dwells of the lane, the state and the step: their number, which is not 0, and their
-- lengths.
abbrev pub IsStepRow : List DwellRow → StepKey → RollupRow → Type 0
IsStepRow found (lane, state, step) w =
    let group = filter (λ (d : DwellRow). same_key (step_key d) (lane, state, step)) found in
    let ms = λ (d : DwellRow). d.dwell.duration_ms in
    (w.dim_kind ≡ "step")
    × (w.dim_key ≡ some (step_dim_key state step))
    × (w.lane ≡ some lane)
    × (w.occurrences ≡ some (length group))
    × (1 ≤ length group)
    × (w.duration_ms_sum ≡ some (sum_of ms group))
    × (w.duration_ms_max ≡ some (max_of ms group))

fault_type_row-IsTypeRow :
    (grain : String) (start ts : ℕ) (found : List FaultRow) (type : String)
    → 1 ≤ length (group_of str_eq (λ (f : FaultRow). f.fault.fault_type) type found)
    → IsTypeRow found type (fault_type_row grain start ts found type)
unfolding fault_type_row of_type group_of
fault_type_row-IsTypeRow grain start ts found type h = (refl, refl, refl, h, refl)

module _ {K : Type 0} (row : K → RollupRow) (P : K → Type 0) (Q : K → RollupRow → Type 0)
    (is_row : (k : K) → P k → Q k (row k)) where
  -- Each row that is made of a key is one of some key.
  map-Q : (ks : List K) → All P ks → All (λ w. (k : K) × Q k w) (map row ks)
  map-Q [] h = tt
  map-Q (k ∷ ks) (h, hs) = ((k, is_row k h), map-Q ks hs)

  module _ {A : Type 0} (key : A → K) (ws : List RollupRow) where
    -- Each item has the row of its key among those that there are.
    cover :
        (xs : List A)
        → All (λ x. P (key x)) xs
        → All (λ x. IsIn (row (key x)) ws) xs
        → All (λ x. (w : RollupRow) × IsIn w ws × Q (key x) w) xs
    cover [] p h = tt
    cover (x ∷ xs) (p, ps) (h, hs) = ((row (key x), h, is_row (key x) p), cover xs ps hs)

step_row-IsStepRow :
    (grain : String) (start ts : ℕ) (found : List DwellRow) (k : StepKey)
    → 1 ≤ length (group_of same_key step_key k found)
    → IsStepRow found k (step_row grain start ts found k)
unfolding step_row of_step group_of
step_row-IsStepRow grain start ts found (lane, state, step) h =
    (refl, refl, refl, refl, h, refl, refl)

fault_type_rows-All :
    (grain : String) (start end ts : ℕ) (faults : List FaultRow)
    → let rows = fault_type_rows grain start end ts faults in
      let found = faults_in start end faults in
      All (λ w. (type : String) × IsTypeRow found type w) rows
      × All (λ f. (w : RollupRow) × IsIn w rows × IsTypeRow found f.fault.fault_type w) found
unfolding fault_type_rows fault_types sort_strings
fault_type_rows-All grain start end ts faults =
    let found = faults_in start end faults in
    let type = λ (f : FaultRow). f.fault.fault_type in
    let row = fault_type_row grain start ts found in
    let P = λ (k : String). 1 ≤ length (group_of str_eq type k found) in
    let types = sort str_lt (fault_types found) in
    let made = fault_type_row-IsTypeRow grain start ts found in
    (
      map-Q row P (IsTypeRow found) made types (sort-groups-All str_eq type eq_iff str_lt found),
      cover row P (IsTypeRow found) made type (map row types) found
          (items-All str_eq type eq_iff found)
          (sort-groups-IsIn str_eq type eq_iff row str_lt found),
    )

-- Where a bucket has no rows by type of fault yet, the pass appends the rows of its types: each counts
-- the faults of one type that were raised in the period, at least one, and sums their downtime; each
-- such fault has the row of its type; and no two rows have one key. So together they count every fault
-- once.
pub emit_fault_type_rollups_lem :
    (grain : String) (start end ts : ℕ) (r : Replica)
    → IsFresh "fault_type" grain start r.rollups
    → let found = faults_in start end r.fault_events in
      (rows : List RollupRow) × ((emit_fault_type_rollups grain start end ts r).rollups
        ≡ r.rollups ++ rows)
      × AreUniqueKeys rows
      × All (λ w. (type : String) × IsTypeRow found type w) rows
      × All (λ f. (w : RollupRow) × IsIn w rows × IsTypeRow found f.fault.fault_type w) found
      × (occurrences_in rows ≡ length found)
      × (duration_in rows ≡ sum_of downtime found)
emit_fault_type_rollups_lem grain start end ts r h =
    let (e, u, n, d) = emit_fault_type_rollups-total grain start end ts r h in
    let (all, covered) = fault_type_rows-All grain start end ts r.fault_events in
    (fault_type_rows grain start end ts r.fault_events, e, u, all, covered, n, d)

step_rows-All :
    (grain : String) (start end ts : ℕ) (dwells : List DwellRow)
    → let rows = step_rows grain start end ts dwells in
      let found = dwells_in start end dwells in
      All (λ w. (k : StepKey) × IsStepRow found k w) rows
      × All (λ d. (w : RollupRow) × IsIn w rows × IsStepRow found (step_key d) w) found
unfolding step_rows step_keys
step_rows-All grain start end ts dwells =
    let found = dwells_in start end dwells in
    let row = step_row grain start ts found in
    let P = λ (k : StepKey). 1 ≤ length (group_of same_key step_key k found) in
    let ks = sort key_lt (step_keys found) in
    let made = step_row-IsStepRow grain start ts found in
    (
      map-Q row P (IsStepRow found) made ks
          (sort-groups-All same_key step_key same_key_iff key_lt found),
      cover row P (IsStepRow found) made step_key (map row ks) found
          (items-All same_key step_key same_key_iff found)
          (sort-groups-IsIn same_key step_key same_key_iff row key_lt found),
    )

-- The rows that a pass makes of the dwells of a period: each counts the dwells of one lane, state and
-- step, at least one, with the sum and the maximum of their lengths; each dwell has the row of its lane,
-- state and step; and together they count every dwell once. The pass keeps the rollups that are there
-- and inserts the rows: each is in the table afterwards, or one of the same key is.
pub emit_step_rollups_lem :
    (grain : String) (start end ts : ℕ) (r : Replica)
    → let found = dwells_in start end r.step_dwells in
      let out = (emit_step_rollups grain start end ts r).rollups in
      (rows : List RollupRow) × All (λ w. (k : StepKey) × IsStepRow found k w) rows
      × All (λ d. (w : RollupRow) × IsIn w rows × IsStepRow found (step_key d) w) found
      × (occurrences_in rows ≡ length found)
      × (duration_in rows ≡ sum_of (λ (d : DwellRow). d.dwell.duration_ms) found)
      × ((added : List RollupRow) × (out ≡ r.rollups ++ added))
      × All (λ w. IsHeld w out) rows
unfolding emit_step_rollups
emit_step_rollups_lem grain start end ts r =
    let rows = step_rows grain start end ts r.step_dwells in
    let (all, covered) = step_rows-All grain start end ts r.step_dwells in
    let (n, d) = step_rows-total grain start end ts r.step_dwells in
    let (grows, held) = insert_rollups-Grows r.rollups rows in
    (rows, all, covered, n, d, grows, held)
