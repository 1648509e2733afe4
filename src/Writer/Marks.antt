-- ===== src/Writer/Marks.antt =====
-- The watermarks of cmd/projector/state.go, and the guard of cmd/projector/writer.go that reads them.
use canebot_projector_repo.Base.{
  ℕ, String, none, some, List, [], ◌∷◌, lookup, insert, ltb, leb, if◌then◌else◌,
}

-- `SetWatermark`: a watermark only moves forward.
unfoldable pub set_watermark : List (String × ℕ) → String → ℕ → List (String × ℕ)
set_watermark marks table ts = elim (lookup table marks) [
  | none ↦ insert table ts marks
  | some cur ↦ if leb ts cur then marks else insert table ts marks
]

-- `guard`: a timestamp before the watermark is moved forward to it.
unfoldable pub guard : List (String × ℕ) → String → ℕ → ℕ
guard marks table ms = elim (lookup table marks) [
  | none ↦ ms
  | some last ↦ if ltb ms last then last else ms
]

-- The loop that moves the watermarks of several tables.
unfoldable pub set_watermarks : List String → ℕ → List (String × ℕ) → List (String × ℕ)
unfolding set_watermark
set_watermarks [] ts marks = marks
set_watermarks (table ∷ tables) ts marks = set_watermarks tables ts (set_watermark marks table ts)
