-- ===== src/Writer/Watermarks.antt =====
-- Watermarks move forward, and so do the timestamps of the cycles.
use canebot_projector_repo.Base.{
  ℕ, ◌≤◌, ◌≡◌, refl, ap, ◌∙◌, ◌⊎◌, String, Bool, false, Option, none, some, List, [], ◌∷◌, str_eq,
  eq_refl, lookup, insert, All, lookup-insert, lookup_or, arith, leb, Bool-cases, Option-cases, inl,
  inr, if◌then◌else◌,
}
use canebot_projector_repo.Tracker.State.{Interval}
use canebot_projector_repo.Writer.Tables.{Cycle, Replica}
use canebot_projector_repo.Writer.Marks.{set_watermark, set_watermarks, guard}
use canebot_projector_repo.Writer.Rows.{cycle_row}
use canebot_projector_repo.Writer.Flush.{
  upsert_cycle, fill_recipes, begin_flush, child_tables, row_times, latest, flush_marks,
}

-- A table's watermark; before 1970 where there is none.
abbrev pub mark : String → List (String × ℕ) → ℕ
mark = lookup_or 0

-- The timestamps begin at `lo`, do not go backwards, and end at `hi`.
abbrev pub IsStamped : ℕ → List Cycle → ℕ → Type 0
IsStamped lo [] hi = lo ≤ hi
IsStamped lo (c ∷ cs) hi = (lo ≤ c.event_ts) × IsStamped c.event_ts cs hi

-- The watermark stays, or it is moved.
set_watermark-cases :
    (marks : List (String × ℕ)) (table : String) (ts : ℕ)
    → ((set_watermark marks table ts ≡ marks) × (ts ≤ mark table marks))
      ⊎ ((set_watermark marks table ts ≡ insert table ts marks) × (mark table marks ≤ ts))
unfolding set_watermark
set_watermark-cases marks table ts = go (lookup table marks)
  where
    go :
        (o : Option ℕ)
        → let m : List (String × ℕ) = elim o [
          | none ↦ insert table ts marks
          | some cur ↦ if leb ts cur then marks else insert table ts marks
        ] in
          let n : ℕ = elim o [ none ↦ 0 | some v ↦ v ] in
          ((m ≡ marks) × (ts ≤ n)) ⊎ ((m ≡ insert table ts marks) × (n ≤ ts))
    go none = inr (refl, omega arith)
    go (some cur) = elim (Bool-cases (leb ts cur)) [
      | inl h ↦ simp h (inl (refl, ground (arith, h)))
      | inr h ↦ simp h (inr (refl, ground (arith, h)))
    ]

pub set_watermark-other :
    (marks : List (String × ℕ)) (table j : String) (ts : ℕ)
    → str_eq table j ≡ false
    → lookup j (set_watermark marks table ts) ≡ lookup j marks
set_watermark-other marks table j ts d = elim (set_watermark-cases marks table ts) [
  | inl (e, l) ↦ ap (lookup j) e
  | inr (e, l) ↦
      ap (lookup j) e
      ∙ lookup-insert table j ts marks
      ∙ ap (λ (b : Bool). if b then some ts else lookup j marks) d
]

-- The watermark is the later one of what it was and of the timestamp.
pub set_watermark-max :
    (marks : List (String × ℕ)) (table : String) (ts : ℕ)
    → (mark table marks ≤ mark table (set_watermark marks table ts))
      × (ts ≤ mark table (set_watermark marks table ts))
set_watermark-max marks table ts = elim (set_watermark-cases marks table ts) [
  | inl (e, l) ↦ rw e (omega arith, l)
  | inr (e, l) ↦
      let new : lookup table (insert table ts marks) ≡ some ts =
        lookup-insert table table ts marks
        ∙ ap (λ (b : Bool). if b then some ts else lookup table marks) (eq_refl table) in
      let m : mark table (insert table ts marks) ≡ ts =
        ap (λ (o : Option ℕ). elim o [ none ↦ 0 | some v ↦ v ]) new in
      rw e (omega (arith, m, l), omega (arith, m))
]

guard-le :
    (marks : List (String × ℕ)) (table : String) (ms : ℕ) → mark table marks ≤ guard marks table ms
unfolding guard
guard-le marks table ms = elim (Option-cases (lookup table marks)) [
  | inl e ↦ ground (arith, e)
  | inr (last, e) ↦ ground (arith, e)
]

IsStamped-weaken :
    (lo : ℕ) (cs : List Cycle) (hi hi' : ℕ) → hi ≤ hi' → IsStamped lo cs hi → IsStamped lo cs hi'
IsStamped-weaken lo [] hi hi' le h = omega arith
IsStamped-weaken lo (c ∷ cs) hi hi' le h = (h.0, IsStamped-weaken c.event_ts cs hi hi' le h.1)

upsert_cycle-IsStamped :
    (new : Cycle) (lo : ℕ) (cs : List Cycle) (hi : ℕ)
    → hi ≤ new.event_ts
    → IsStamped lo cs hi
    → IsStamped lo (upsert_cycle new cs) new.event_ts
unfolding upsert_cycle
upsert_cycle-IsStamped new lo [] hi le h = (omega arith, omega arith)
upsert_cycle-IsStamped new lo (c ∷ cs) hi le h =
    elim (Bool-cases (str_eq c.order_id new.order_id)) [
      | inl same ↦ simp same (h.0, IsStamped-weaken c.event_ts cs hi new.event_ts le h.1)
      | inr other ↦ simp other (h.0, upsert_cycle-IsStamped new c.event_ts cs hi le h.1)
    ]

set_watermarks-cycles :
    (tables : List String) (ts : ℕ) (marks : List (String × ℕ))
    → All (λ table. str_eq table "cycles" ≡ false) tables
    → lookup "cycles" (set_watermarks tables ts marks) ≡ lookup "cycles" marks
unfolding set_watermarks
set_watermarks-cycles [] ts marks h = refl
set_watermarks-cycles (table ∷ tables) ts marks h =
    set_watermarks-cycles tables ts (set_watermark marks table ts) h.1
    ∙ set_watermark-other marks table "cycles" ts h.0

-- A flush stamps its cycle no earlier than the cycles that are there, and no later than the watermark
-- that it leaves.
pub flush-IsStamped :
    (iv : Interval) (r : Replica)
    → IsStamped 0 r.cycles (mark "cycles" r.marks)
    → IsStamped 0 (begin_flush iv r).cycles (mark "cycles" (flush_marks iv r.marks))
unfolding begin_flush fill_recipes cycle_row flush_marks
flush-IsStamped iv r h =
    let ts = guard r.marks "cycles" iv.ended_ms in
    let new = cycle_row ts iv in
    let marked = set_watermark r.marks "cycles" ts in
    let same =
      ap {B = ℕ} (λ (o : Option ℕ). elim o [ none ↦ 0 | some v ↦ v ])
        (set_watermarks-cycles child_tables (latest ts (row_times iv)) marked
          (refl, (refl, (refl, (refl, (refl, (refl, tt))))))) in
    IsStamped-weaken 0 (upsert_cycle new r.cycles) ts _
      (omega (arith, same, (set_watermark-max r.marks "cycles" ts).1))
      (upsert_cycle-IsStamped new 0 r.cycles (mark "cycles" r.marks)
        (guard-le r.marks "cycles" iv.ended_ms) h)
