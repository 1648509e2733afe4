-- ===== src/Pipeline/Merge.antt =====
-- The merge in `tick` and `collect` of cmd/projector/main.go: the source tables' batches, in the order
-- of time, up to where no table can have an earlier row that is still unread.
use canebot_projector_repo.Base.{
  ℕ, suc, Bool, true, false, Option, none, some, List, [], ◌∷◌, ◌++◌, sort, ltb, leb, ◌==◌,
  if◌then◌else◌,
}
use canebot_projector_repo.Tracker.State.{Tracker}
use canebot_projector_repo.Tracker.Doors.{IoPins}
use canebot_projector_repo.Tracker.Inputs.{Input, apply}

-- A row of a source table: when it happened, the table's precedence, and its id there.
pub record TimelineItem : Type 0 where
  pub at : ℕ
  pub kind : ℕ
  pub src_id : ℕ
  pub input : Input

-- The order of `sort.SliceStable`.
unfoldable pub comes_before : TimelineItem → TimelineItem → Bool
comes_before a b =
    if a.at == b.at
    then if a.kind == b.kind then ltb a.src_id b.src_id else ltb a.kind b.kind
    else ltb a.at b.at

-- `noteFull` of a table's batch: the time of the last row of a batch that is full bounds the merge.
-- `full` says whether the batch is full.
unfoldable pub note_full : Option ℕ → Bool → ℕ → Option ℕ
note_full safe false last = safe
note_full none true last = some last
note_full (some s) true last = some (if ltb last s then last else s)

-- `noteFull(n >= batchSize, rows[n-1].TS)`, where there are rows.
unfoldable pub last_time : List TimelineItem → Option ℕ
last_time [] = none
last_time (x ∷ xs) = elim (last_time xs) [ none ↦ some x.at | some at ↦ some at ]

unfoldable pub count : List TimelineItem → ℕ
count [] = 0
count (x ∷ xs) = suc (count xs)

unfoldable pub note_batch : ℕ → Option ℕ → List TimelineItem → Option ℕ
unfolding note_full last_time count
note_batch batch_size safe items = elim (last_time items) [
  | none ↦ safe
  | some at ↦ note_full safe (leb batch_size (count items)) at
]

abbrev pub concat : List (List TimelineItem) → List TimelineItem
concat [] = []
concat (b ∷ bs) = b ++ concat bs

-- The bound, over the batches of all tables.
unfoldable pub safe_up_to : ℕ → Option ℕ → List (List TimelineItem) → Option ℕ
unfolding note_batch
safe_up_to batch_size safe [] = safe
safe_up_to batch_size safe (b ∷ bs) = safe_up_to batch_size (note_batch batch_size safe b) bs

unfoldable pub is_beyond : Option ℕ → ℕ → Bool
is_beyond none at = false
is_beyond (some safe) at = ltb safe at

-- What the loop over the sorted rows has done: the rows it applied, in order, and those it left.
unfoldable pub split : Option ℕ → List TimelineItem → List TimelineItem × List TimelineItem
unfolding is_beyond
split safe [] = ([], [])
split safe (x ∷ xs) =
    let rest = split safe xs in if is_beyond safe x.at then ([], x ∷ xs) else (x ∷ rest.0, rest.1)

-- The loop's calls of the tracker.
unfoldable pub apply_items : IoPins → Tracker → List TimelineItem → Tracker
apply_items io t [] = t
apply_items io t (x ∷ xs) = apply_items io (apply io t x.input) xs

-- `applied[table] = it.srcID` and `latest = it.at`, over the rows that are applied.
unfoldable pub applied_id : ℕ → Option ℕ → List TimelineItem → Option ℕ
applied_id kind id [] = id
applied_id kind id (x ∷ xs) = applied_id kind (if x.kind == kind then some x.src_id else id) xs

unfoldable pub latest_at : Option ℕ → List TimelineItem → Option ℕ
latest_at at [] = at
latest_at at (x ∷ xs) = latest_at (some x.at) xs

-- The cursor of a table behind the tick: it only moves forward.
unfoldable pub next_cursor : ℕ → ℕ → List TimelineItem → ℕ
unfolding applied_id
next_cursor cursor kind items = elim (applied_id kind none items) [
  | none ↦ cursor
  | some id ↦ if ltb cursor id then id else cursor
]

-- The rows of a tick, from the tables' batches: those that are applied, and those that are left.
unfoldable pub merge : ℕ → List (List TimelineItem) → List TimelineItem × List TimelineItem
unfolding safe_up_to split sort comes_before
merge batch_size batches =
    split (safe_up_to batch_size none batches) (sort comes_before (concat batches))
