-- ===== src/Pipeline/Unread.antt =====
-- The bound of the merge, and the last rows of full batches.
use canebot_projector_repo.Base.{
  ℕ, ◌≤◌, ◌≡◌, refl, ap, Bool, true, false, Option, none, some, List, [], ◌∷◌, All, arith, ltb, leb,
  Bool-cases, inl, inr,
}
use canebot_projector_repo.Pipeline.Merge.{
  TimelineItem, note_full, last_time, count, note_batch, safe_up_to, is_beyond, merge,
}
use canebot_projector_repo.Pipeline.Cursors.{IsWithin, merge_lem}

-- The merge stops at `at` at the latest.
abbrev pub StopsAt : ℕ → Option ℕ → Type 0
StopsAt at safe = (s : ℕ) × (safe ≡ some s) × (s ≤ at)

note_full-stops : (safe : Option ℕ) (last : ℕ) → StopsAt last (note_full safe true last)
unfolding note_full
note_full-stops none last = (last, refl, omega arith)
note_full-stops (some s) last = elim (Bool-cases (ltb last s)) [
  | inl h ↦ simp h (last, refl, omega arith)
  | inr h ↦ simp h (s, refl, ground (arith, h))
]

note_full-keeps :
    (at : ℕ) (safe : Option ℕ) (full : Bool) (last : ℕ)
    → StopsAt at safe
    → StopsAt at (note_full safe full last)
unfolding note_full
note_full-keeps at safe false last h = h
note_full-keeps at none true last (s, e, l) = cc
note_full-keeps at (some t) true last (s, e, l) = elim (Bool-cases (ltb last t)) [
  | inl h ↦ simp h (last, refl, ground (arith, h, e))
  | inr h ↦ simp h (s, e, l)
]

note_batch-keeps :
    (at batch_size : ℕ) (safe : Option ℕ) (b : List TimelineItem)
    → StopsAt at safe
    → StopsAt at (note_batch batch_size safe b)
unfolding note_batch
note_batch-keeps at batch_size safe b h = keep (last_time b)
  where
    keep :
        (last : Option ℕ)
        → StopsAt at
            (elim last [ none ↦ safe | some l ↦ note_full safe (leb batch_size (count b)) l ])
    keep none = h
    keep (some l) = note_full-keeps at safe _ l h

note_batch-some :
    (batch_size : ℕ) (safe : Option ℕ) (b : List TimelineItem) (last : ℕ)
    → last_time b ≡ some last
    → note_batch batch_size safe b ≡ note_full safe (leb batch_size (count b)) last
unfolding note_batch
note_batch-some batch_size safe b last e =
    ap
      (λ (o : Option ℕ). elim o [
        | none ↦ safe
        | some l ↦ note_full safe (leb batch_size (count b)) l
      ])
      e

note_batch-stops :
    (batch_size last : ℕ) (safe : Option ℕ) (b : List TimelineItem)
    → last_time b ≡ some last
    → batch_size ≤ count b
    → StopsAt last (note_batch batch_size safe b)
note_batch-stops batch_size last safe b e full =
    let f : leb batch_size (count b) ≡ true = ground (arith, full) in
    rw (note_batch-some batch_size safe b last e, f) (note_full-stops safe last)

safe_up_to-keeps :
    (at batch_size : ℕ) (safe : Option ℕ) (bs : List (List TimelineItem))
    → StopsAt at safe
    → StopsAt at (safe_up_to batch_size safe bs)
unfolding safe_up_to
safe_up_to-keeps at batch_size safe [] h = h
safe_up_to-keeps at batch_size safe (b ∷ bs) h =
    safe_up_to-keeps at batch_size (note_batch batch_size safe b) bs
      (note_batch-keeps at batch_size safe b h)

-- What a full batch says of the bound.
abbrev IsNoted : ℕ → Option ℕ → List TimelineItem → Type 0
IsNoted batch_size safe b =
    (last : ℕ) → last_time b ≡ some last → batch_size ≤ count b → StopsAt last safe

safe_up_to-notes :
    (batch_size : ℕ) (safe : Option ℕ) (bs : List (List TimelineItem))
    → All (IsNoted batch_size (safe_up_to batch_size safe bs)) bs
unfolding safe_up_to
safe_up_to-notes batch_size safe [] = tt
safe_up_to-notes batch_size safe (b ∷ bs) = (
  λ last e full.
      safe_up_to-keeps last batch_size (note_batch batch_size safe b) bs
        (note_batch-stops batch_size last safe b e full),
  safe_up_to-notes batch_size (note_batch batch_size safe b) bs,
)

within-le :
    (at : ℕ) (safe : Option ℕ) (xs : List TimelineItem)
    → StopsAt at safe
    → All (IsWithin safe) xs
    → All (λ x. x.at ≤ at) xs
unfolding is_beyond
within-le at safe [] (s, e, l) h = tt
within-le at safe (x ∷ xs) (s, e, l) h =
    (ground (arith, h.0, e, l), within-le at safe xs (s, e, l) h.1)

-- No row that is applied is later than the last row of a batch that is full: one with as many rows as
-- a batch holds, rows that could not be parsed not counted.
pub merge_unread :
    (batch_size : ℕ) (batches : List (List TimelineItem))
    → All
        (λ b.
          (last : ℕ)
          → last_time b ≡ some last
          → batch_size ≤ count b
          → All (λ x. x.at ≤ last) (merge batch_size batches).0)
        batches
merge_unread batch_size batches = go batches (safe_up_to-notes batch_size none batches)
  where
    go :
        (bs : List (List TimelineItem))
        → All (IsNoted batch_size (safe_up_to batch_size none batches)) bs
        → All
            (λ b.
              (last : ℕ)
              → last_time b ≡ some last
              → batch_size ≤ count b
              → All (λ x. x.at ≤ last) (merge batch_size batches).0)
            bs
    go [] h = tt
    go (b ∷ bs) h = (
      λ last e full. within-le last _ _ (h.0 last e full) (merge_lem batch_size batches).2,
      go bs h.1,
    )
