-- ===== src/Writer/Keys.antt =====
-- `UNIQUE(grain, bucket_start_ms, dim_kind, dim_key)` of the rollups (cmd/projector/schema.go), and the
-- insertions of cmd/projector/rollup.go with `ON CONFLICT ... DO NOTHING`. NULL is not equal to NULL.
use canebot_projector_repo.Base.{
  ◌≡◌, refl, String, Bool, false, ◌&&◌, ◌||◌, Option, none, some, List, [], ◌∷◌, ◌++◌, filter,
  str_eq, eq_iff, ◌==◌, if◌then◌else◌, arith, Bool-cases, inl, inr,
}
use canebot_projector_repo.Writer.Tables.{RollupRow}

abbrev is_key : Option String → Option String → Bool
is_key none k = false
is_key (some j) none = false
is_key (some j) (some k) = str_eq j k

-- Whether the two rows cannot stand in the table together.
unfoldable pub conflicts : RollupRow → RollupRow → Bool
conflicts a b =
    is_key a.dim_key b.dim_key
    && (str_eq a.dim_kind b.dim_kind
        && (a.bucket_start_ms == b.bucket_start_ms && str_eq a.grain b.grain))

unfoldable pub has_key : RollupRow → List RollupRow → Bool
has_key new [] = false
has_key new (w ∷ ws) = conflicts w new || has_key new ws

unfoldable pub insert_rollup : List RollupRow → RollupRow → List RollupRow
unfolding has_key
insert_rollup ws new = if has_key new ws then ws else ws ++ new ∷ []

unfoldable pub insert_rollups : List RollupRow → List RollupRow → List RollupRow
unfolding insert_rollup
insert_rollups ws [] = ws
insert_rollups ws (x ∷ xs) = insert_rollups (insert_rollup ws x) xs

-- No two rows have the same key.
abbrev pub AreUniqueKeys : List RollupRow → Type 0
AreUniqueKeys [] = Unit
AreUniqueKeys (w ∷ ws) = (has_key w ws ≡ false) × AreUniqueKeys ws

pub conflicts_comm : (a b : RollupRow) → conflicts a b ≡ conflicts b a
unfolding conflicts
conflicts_comm a b = go a.dim_key b.dim_key
  where
    go :
        (j k : Option String)
        → (is_key j k
            && (str_eq a.dim_kind b.dim_kind
                && (a.bucket_start_ms == b.bucket_start_ms && str_eq a.grain b.grain)))
          ≡ (is_key k j
              && (str_eq b.dim_kind a.dim_kind
                  && (b.bucket_start_ms == a.bucket_start_ms && str_eq b.grain a.grain)))
    go none none = refl
    go none (some k) = refl
    go (some j) none = refl
    go (some j) (some k) = ground (
      arith,
      eq_iff j k,
      eq_iff k j,
      eq_iff a.dim_kind b.dim_kind,
      eq_iff b.dim_kind a.dim_kind,
      eq_iff a.grain b.grain,
      eq_iff b.grain a.grain,
    )

pub has_key-append :
    (k : RollupRow) (ws xs : List RollupRow) → has_key k (ws ++ xs) ≡ (has_key k ws || has_key k xs)
unfolding has_key
has_key-append k [] xs = refl
has_key-append k (w ∷ ws) xs = ground (arith, has_key-append k ws xs)

insert-AreUniqueKeys :
    (ws : List RollupRow) (new : RollupRow)
    → has_key new ws ≡ false
    → AreUniqueKeys ws
    → AreUniqueKeys (ws ++ new ∷ [])
unfolding has_key
insert-AreUniqueKeys [] new h u = (refl, tt)
insert-AreUniqueKeys (w ∷ ws) new h u = (
  ground (arith, has_key-append w ws (new ∷ []), conflicts_comm w new, u.0, h),
  insert-AreUniqueKeys ws new (ground (arith, h)) u.1,
)

pub insert_rollup-AreUniqueKeys :
    (ws : List RollupRow) (new : RollupRow)
    → AreUniqueKeys ws
    → AreUniqueKeys (insert_rollup ws new)
unfolding insert_rollup
insert_rollup-AreUniqueKeys ws new u = elim (Bool-cases (has_key new ws)) [
  | inl h ↦ simp h u
  | inr h ↦ simp h (insert-AreUniqueKeys ws new h u)
]

pub insert_rollups-AreUniqueKeys :
    (ws xs : List RollupRow) → AreUniqueKeys ws → AreUniqueKeys (insert_rollups ws xs)
unfolding insert_rollups
insert_rollups-AreUniqueKeys ws [] u = u
insert_rollups-AreUniqueKeys ws (x ∷ xs) u =
    insert_rollups-AreUniqueKeys (insert_rollup ws x) xs (insert_rollup-AreUniqueKeys ws x u)

has_key-filter :
    (p : RollupRow → Bool) (ws : List RollupRow) (k : RollupRow)
    → has_key k ws ≡ false
    → has_key k (filter p ws) ≡ false
unfolding has_key
has_key-filter p [] k h = refl
has_key-filter p (w ∷ ws) k h = ground (arith, h, has_key-filter p ws k)

pub filter-AreUniqueKeys :
    (p : RollupRow → Bool) (ws : List RollupRow) → AreUniqueKeys ws → AreUniqueKeys (filter p ws)
filter-AreUniqueKeys p [] u = tt
filter-AreUniqueKeys p (w ∷ ws) u = elim (Bool-cases (p w)) [
  | inl e ↦ rw e (has_key-filter p ws w u.0, filter-AreUniqueKeys p ws u.1)
  | inr e ↦ rw e (filter-AreUniqueKeys p ws u.1)
]
