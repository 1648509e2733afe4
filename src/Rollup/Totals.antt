-- ===== src/Rollup/Totals.antt =====
-- The rows of a bucket by type of fault, and by step, add up to the faults and the dwells of the period.
use canebot_projector_repo.Base.{
  ℕ, ◌+◌, ◌≤◌, ◌≡◌, refl, sym, ap, ◌∙◌, ◌↔◌, String, Bool, true, false, ◌&&◌, Option, none, some,
  List, [], ◌∷◌, ◌++◌, map, length, sort, sort_strings, str_eq, str_lt, eq_iff, eq_refl, All, ◌==◌,
  arith, if◌then◌else◌,
}
use mathlib.Core.List.{append-nil, append_assoc}
use canebot_projector_repo.Writer.Tables.{DwellRow, FaultRow, RollupRow, Replica}
use canebot_projector_repo.Writer.Keys.{
  conflicts, conflicts_comm, has_key, has_key-append, insert_rollup, insert_rollups, AreUniqueKeys,
}
use canebot_projector_repo.Rollup.Grouping.{sum_of, group_of}
use canebot_projector_repo.Rollup.Grouped.{
  sum_of-sort, sum_of-one, occurs, occurs-groups, sum_of-groups,
}
use canebot_projector_repo.Rollup.Groups.{
  faults_in, fault_types, of_type, downtime, fault_type_row, fault_type_rows,
  emit_fault_type_rollups, StepKey, step_key, same_option, same_key, key_lt, dwells_in, step_keys,
  of_step, step_row, step_rows,
}

abbrev pub or_zero : Option ℕ → ℕ
or_zero none = 0
or_zero (some n) = n

-- What the rows count, and how long that took.
abbrev pub occurrences_in : List RollupRow → ℕ
occurrences_in = sum_of (λ (w : RollupRow). or_zero w.occurrences)

abbrev pub duration_in : List RollupRow → ℕ
duration_in = sum_of (λ (w : RollupRow). or_zero w.duration_ms_sum)

sum_of-map {ℓ κ} :
    {A : Type ℓ} {B : Type κ} (f : A → B) (g : B → ℕ) (xs : List A)
    → sum_of g (map f xs) ≡ sum_of (λ x. g (f x)) xs
unfolding sum_of
sum_of-map f g [] = refl
sum_of-map f g (x ∷ xs) = ap {B = ℕ} (λ n. g (f x) + n) (sum_of-map f g xs)

sum_of-ext {ℓ} :
    {A : Type ℓ} (f g : A → ℕ) (xs : List A) → ((x : A) → f x ≡ g x) → sum_of f xs ≡ sum_of g xs
unfolding sum_of
sum_of-ext f g [] e = refl
sum_of-ext f g (x ∷ xs) e = omega (arith, e x, sum_of-ext f g xs e)

fault_type_rows-occurrences :
    (grain : String) (start end ts : ℕ) (faults : List FaultRow)
    → occurrences_in (fault_type_rows grain start end ts faults)
      ≡ length (faults_in start end faults)
unfolding fault_type_rows fault_type_row fault_types of_type sort_strings
fault_type_rows-occurrences grain start end ts faults =
    let found = faults_in start end faults in
    sum_of-map _ _ _
    ∙ sum_of-ext _ _ _ (λ k. sym (sum_of-one (group_of str_eq _ k found)))
    ∙ sum_of-groups str_eq (λ (f : FaultRow). f.fault.fault_type) eq_iff (λ f. 1) str_lt found
    ∙ sum_of-one found

fault_type_rows-duration :
    (grain : String) (start end ts : ℕ) (faults : List FaultRow)
    → duration_in (fault_type_rows grain start end ts faults)
      ≡ sum_of downtime (faults_in start end faults)
unfolding fault_type_rows fault_type_row fault_types of_type sort_strings
fault_type_rows-duration grain start end ts faults =
    sum_of-map _ _ _
    ∙ sum_of-groups str_eq (λ (f : FaultRow). f.fault.fault_type) eq_iff downtime str_lt
        (faults_in start end faults)

pub same_key_iff : (j k : StepKey) → (same_key j k ≡ true) ↔ (j ≡ k)
unfolding same_key same_option
same_key_iff (l, s, none) (l', s', none) = ground (arith, eq_iff l l', eq_iff s s')
same_key_iff (l, s, none) (l', s', some n') = ground (arith, eq_iff l l', eq_iff s s')
same_key_iff (l, s, some n) (l', s', none) = ground (arith, eq_iff l l', eq_iff s s')
same_key_iff (l, s, some n) (l', s', some n') = ground (arith, eq_iff l l', eq_iff s s')

-- The rows that are made of the steps of a period count each of its dwells once, and sum their lengths.
pub step_rows-total :
    (grain : String) (start end ts : ℕ) (dwells : List DwellRow)
    → let rows = step_rows grain start end ts dwells in
      let found = dwells_in start end dwells in
      (occurrences_in rows ≡ length found)
      × (duration_in rows ≡ sum_of (λ (d : DwellRow). d.dwell.duration_ms) found)
unfolding step_rows step_row step_keys of_step
step_rows-total grain start end ts dwells =
    let found = dwells_in start end dwells in
    (
      sum_of-map _ _ _
          ∙ sum_of-ext _ _ _ (λ k. sym (sum_of-one (group_of same_key step_key k found)))
          ∙ sum_of-groups same_key step_key same_key_iff (λ d. 1) key_lt found
          ∙ sum_of-one found,
      sum_of-map _ _ _
          ∙ sum_of-groups same_key step_key same_key_iff (λ (d : DwellRow). d.dwell.duration_ms)
              key_lt found,
    )

has_key-later :
    (ws ys : List RollupRow) (x : RollupRow)
    → All (λ y. has_key y ws ≡ false) ys
    → has_key x ys ≡ false
    → All (λ y. has_key y (ws ++ x ∷ []) ≡ false) ys
unfolding has_key
has_key-later ws [] x h e = tt
has_key-later ws (y ∷ ys) x h e = (
  has_key-append y ws (x ∷ []) ∙ ground (arith, h.0, e, conflicts_comm x y),
  has_key-later ws ys x h.1 (ground (arith, e)),
)

-- Rows of new keys are appended.
insert_rollups-append :
    (ws xs : List RollupRow)
    → All (λ x. has_key x ws ≡ false) xs
    → AreUniqueKeys xs
    → insert_rollups ws xs ≡ ws ++ xs
unfolding insert_rollups insert_rollup
insert_rollups-append ws [] h u = sym (append-nil ws)
insert_rollups-append ws (x ∷ xs) h u =
    simp h.0 (insert_rollups-append (ws ++ x ∷ []) xs (has_key-later ws xs x h.1 u.0) u.1)
    ∙ append_assoc ws (x ∷ []) xs

-- Whether the row is one of the kind, of this bucket.
abbrev pub is_of : String → String → ℕ → RollupRow → Bool
is_of kind grain bucket_start w =
    str_eq w.dim_kind kind && (w.bucket_start_ms == bucket_start && str_eq w.grain grain)

-- The bucket has no rows of the kind yet.
abbrev pub IsFresh : String → String → ℕ → List RollupRow → Type 0
IsFresh kind grain bucket_start = All (λ w. is_of kind grain bucket_start w ≡ false)

module _ (grain : String) (start ts : ℕ) (found : List FaultRow) where
  row : String → RollupRow
  unfolding fault_type_row
  row = fault_type_row grain start ts found

  row-is_new :
      (ws : List RollupRow) (k : String)
      → IsFresh "fault_type" grain start ws
      → has_key (row k) ws ≡ false
  unfolding has_key conflicts row
  row-is_new [] k h = refl
  row-is_new (w ∷ ws) k h = ground (arith, h.0, row-is_new ws k h.1)

  rows-are_new :
      (ws : List RollupRow) (ks : List String)
      → IsFresh "fault_type" grain start ws
      → All (λ x. has_key x ws ≡ false) (map row ks)
  rows-are_new ws [] h = tt
  rows-are_new ws (k ∷ ks) h = (row-is_new ws k h, rows-are_new ws ks h)

  row-differs :
      (k : String) (ks : List String)
      → occurs str_eq k ks ≡ 0
      → has_key (row k) (map row ks) ≡ false
  unfolding has_key conflicts row sum_of
  row-differs k [] e = refl
  row-differs k (j ∷ ks) e = ground (arith, e, row-differs k ks, eq_iff j k, eq_iff k j)

  rows-AreUniqueKeys :
      (ks : List String) → ((k : String) → occurs str_eq k ks ≤ 1) → AreUniqueKeys (map row ks)
  unfolding sum_of
  rows-AreUniqueKeys [] le = tt
  rows-AreUniqueKeys (k ∷ ks) le = (
    row-differs k ks (ground (arith, le k, eq_refl k)),
    rows-AreUniqueKeys ks (λ j. ground (arith, le j)),
  )

-- Where a bucket has no rows by type of fault yet, all rows are appended, no two of one type, and
-- together they count the faults and sum their downtime.
pub emit_fault_type_rollups-total :
    (grain : String) (start end ts : ℕ) (r : Replica)
    → IsFresh "fault_type" grain start r.rollups
    → let rows = fault_type_rows grain start end ts r.fault_events in
      let found = faults_in start end r.fault_events in
      ((emit_fault_type_rollups grain start end ts r).rollups ≡ r.rollups ++ rows)
      × AreUniqueKeys rows
      × (occurrences_in rows ≡ length found)
      × (duration_in rows ≡ sum_of downtime found)
unfolding emit_fault_type_rollups fault_type_rows fault_types sort_strings row
emit_fault_type_rollups-total grain start end ts r h =
    let found = faults_in start end r.fault_events in
    let types = fault_types found in
    let u = rows-AreUniqueKeys grain start ts found (sort str_lt types) (λ k. ground (
      arith,
      sum_of-sort str_lt (λ (j : String). if str_eq k j then 1 else 0) types,
      occurs-groups str_eq (λ (f : FaultRow). f.fault.fault_type) eq_iff k found,
    )) in
    (
      insert_rollups-append r.rollups (map (row grain start ts found) (sort str_lt types))
          (rows-are_new grain start ts found r.rollups (sort str_lt types) h) u,
      u,
      fault_type_rows-occurrences grain start end ts r.fault_events,
      fault_type_rows-duration grain start end ts r.fault_events,
    )
