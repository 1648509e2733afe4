-- ===== src/Rollup/Migrated.antt =====
-- Folding the older tables loses no row, and is done once.
use canebot_projector_repo.Base.{
  map, Option, none, some, ◌≡◌, refl, sym, ap, subst, ◌∙◌, ◌⊎◌, inl, inr, true, ◌||◌, List, [], ◌∷◌,
  ◌++◌, All, Bool-cases,
}
use canebot_projector_repo.Tracker.Invariant.Defs.{OnSome}
use canebot_projector_repo.Writer.Tables.{RollupRow}
use canebot_projector_repo.Writer.Keys.{
  has_key, has_key-append, insert_rollup, insert_rollups, AreUniqueKeys,
  insert_rollups-AreUniqueKeys,
}
use canebot_projector_repo.Rollup.Migration.{
  OlderTables, no_older_tables, hourly_row, daily_row, fault_count_row, step_stat_row, selected,
  selections, fold_in, migrate_rollups,
}

-- The row is in the table, or one of its key is.
abbrev pub IsHeld : RollupRow → List RollupRow → Type 0
IsHeld x ws =
    (has_key x ws ≡ true)
    ⊎ ((before : List RollupRow) × (behind : List RollupRow) × (ws ≡ before ++ x ∷ behind))

append_assoc : (xs ys zs : List RollupRow) → (xs ++ ys) ++ zs ≡ xs ++ (ys ++ zs)
append_assoc [] ys zs = refl
append_assoc (x ∷ xs) ys zs = ap (λ (r : List RollupRow). x ∷ r) (append_assoc xs ys zs)

IsHeld-append : (x : RollupRow) (ws zs : List RollupRow) → IsHeld x ws → IsHeld x (ws ++ zs)
IsHeld-append x ws zs (inl h) = inl (has_key-append x ws zs ∙ ap (λ b. b || has_key x zs) h)
IsHeld-append x ws zs (inr (before, behind, e)) = inr (
  before,
  behind ++ zs,
  ap (λ (r : List RollupRow). r ++ zs) e ∙ append_assoc before (x ∷ behind) zs,
)

abbrev pub Grows : List RollupRow → List RollupRow → Type 0
Grows ws vs = (added : List RollupRow) × (vs ≡ ws ++ added)

append_nil : (ws : List RollupRow) → ws ≡ ws ++ []
append_nil [] = refl
append_nil (w ∷ ws) = ap (λ (r : List RollupRow). w ∷ r) (append_nil ws)

Grows-trans : (us vs ws : List RollupRow) → Grows us vs → Grows vs ws → Grows us ws
Grows-trans us vs ws (xs, e) (ys, f) =
    (xs ++ ys, f ∙ ap (λ (r : List RollupRow). r ++ ys) e ∙ append_assoc us xs ys)

IsHeld-Grows : (x : RollupRow) (ws vs : List RollupRow) → Grows ws vs → IsHeld x ws → IsHeld x vs
IsHeld-Grows x ws vs (added, e) h =
    subst (λ (r : List RollupRow). IsHeld x r) (sym e) (IsHeld-append x ws added h)

All-IsHeld :
    (xs ws vs : List RollupRow)
    → Grows ws vs
    → All (λ x. IsHeld x ws) xs
    → All (λ x. IsHeld x vs) xs
All-IsHeld [] ws vs g h = tt
All-IsHeld (x ∷ xs) ws vs g (h, hs) = (IsHeld-Grows x ws vs g h, All-IsHeld xs ws vs g hs)

insert_rollup-Grows :
    (ws : List RollupRow) (x : RollupRow)
    → Grows ws (insert_rollup ws x) × IsHeld x (insert_rollup ws x)
unfolding insert_rollup
insert_rollup-Grows ws x = elim (Bool-cases (has_key x ws)) [
  | inl e ↦ rw e (([], append_nil ws), inl e)
  | inr e ↦ rw e ((x ∷ [], refl), inr (ws, [], refl))
]

pub insert_rollups-Grows :
    (ws xs : List RollupRow)
    → Grows ws (insert_rollups ws xs) × All (λ x. IsHeld x (insert_rollups ws xs)) xs
unfolding insert_rollups
insert_rollups-Grows ws [] = (([], append_nil ws), tt)
insert_rollups-Grows ws (x ∷ xs) =
    let one = insert_rollup ws x in
    let (g, h) = insert_rollup-Grows ws x in
    let (gs, hs) = insert_rollups-Grows one xs in
    (Grows-trans ws one _ g gs, (IsHeld-Grows x one _ gs h, hs))

-- All rows of all tables are held.
abbrev pub AreHeld : List (List RollupRow) → List RollupRow → Type 0
AreHeld tables ws = All (λ (rows : List RollupRow). All (λ x. IsHeld x ws) rows) tables

fold_in-Grows :
    (tables : List (List RollupRow)) (ws : List RollupRow)
    → Grows ws (fold_in tables ws) × AreHeld tables (fold_in tables ws)
unfolding fold_in
fold_in-Grows [] ws = (([], append_nil ws), tt)
fold_in-Grows (rows ∷ tables) ws =
    let one = insert_rollups ws rows in
    let (g, h) = insert_rollups-Grows ws rows in
    let (gs, hs) = fold_in-Grows tables one in
    (Grows-trans ws one _ g gs, (All-IsHeld rows one _ gs h, hs))

fold_in-AreUniqueKeys :
    (tables : List (List RollupRow)) (ws : List RollupRow)
    → AreUniqueKeys ws
    → AreUniqueKeys (fold_in tables ws)
unfolding fold_in
fold_in-AreUniqueKeys [] ws u = u
fold_in-AreUniqueKeys (rows ∷ tables) ws u =
    fold_in-AreUniqueKeys tables (insert_rollups ws rows) (insert_rollups-AreUniqueKeys ws rows u)

map-All :
    {A : Type 0} (row : A → RollupRow) (ws : List RollupRow) (xs : List A)
    → All (λ x. IsHeld x ws) (map row xs)
    → All (λ x. IsHeld (row x) ws) xs
map-All row ws [] h = tt
map-All row ws (x ∷ xs) (h, hs) = (h, map-All row ws xs hs)

selected-OnSome :
    {A : Type 0} (row : A → RollupRow) (ws : List RollupRow) (o : Option (List A))
    → All (λ x. IsHeld x ws) (selected row o)
    → OnSome (All (λ x. IsHeld (row x) ws)) o
unfolding selected
selected-OnSome row ws none h = tt
selected-OnSome row ws (some xs) h = map-All row ws xs h

migrate_rollups_none :
    (ws : List RollupRow) → migrate_rollups no_older_tables ws ≡ (no_older_tables, ws, 0)
unfolding migrate_rollups selections selected fold_in insert_rollups
migrate_rollups_none ws = refl

-- Folding the older tables keeps the rows that are there and the unique key, and of each older table
-- that is there holds the row of each of its rows, or one of the same key. A second pass folds none and
-- changes nothing.
pub migrate_rollups_lem :
    (old : OlderTables) (ws : List RollupRow)
    → AreUniqueKeys ws
    → let (old', ws', folded) = migrate_rollups old ws in
      ((added : List RollupRow) × (ws' ≡ ws ++ added))
      × AreUniqueKeys ws'
      × OnSome (All (λ h. IsHeld (hourly_row h) ws')) old.hourly_rollups
      × OnSome (All (λ d. IsHeld (daily_row d) ws')) old.daily_rollups
      × OnSome (All (λ f. IsHeld (fault_count_row f) ws')) old.hourly_fault_counts
      × OnSome (All (λ s. IsHeld (step_stat_row s) ws')) old.hourly_step_stats
      × (migrate_rollups old' ws' ≡ (old', ws', 0))
unfolding migrate_rollups selections
migrate_rollups_lem old ws u =
    let (g, h) = fold_in-Grows (selections old) ws in
    let (hours, (days, (faults, (steps, _)))) = h in
    let out = fold_in (selections old) ws in
    (
      g,
      fold_in-AreUniqueKeys (selections old) ws u,
      selected-OnSome hourly_row out old.hourly_rollups hours,
      selected-OnSome daily_row out old.daily_rollups days,
      selected-OnSome fault_count_row out old.hourly_fault_counts faults,
      selected-OnSome step_stat_row out old.hourly_step_stats steps,
      migrate_rollups_none (fold_in (selections old) ws),
    )
