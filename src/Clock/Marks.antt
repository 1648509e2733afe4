-- ===== src/Clock/Marks.antt =====
-- The watermarks of cmd/projector/state.go as the store has them, by the texts of timestamps, and the
-- guard of cmd/projector/writer.go that reads them.
use canebot_projector_repo.Base.{
  ℕ, String, Bool, true, false, not, ◌&&◌, none, some, List, [], ◌∷◌, lookup, insert, lookup_or,
  if◌then◌else◌,
}
use canebot_projector_repo.Clock.Text.{bytes_lt, event_ts}

abbrev pub is_empty : List ℕ → Bool
is_empty [] = true
is_empty (x ∷ xs) = false

-- `Watermark`: a table without one has the empty text.
unfoldable pub watermark_text : List (String × List ℕ) → String → List ℕ
watermark_text marks table = lookup_or [] table marks

-- `SetWatermark`
unfoldable pub set_watermark_text :
    List (String × List ℕ) → String → List ℕ → List (String × List ℕ)
set_watermark_text marks table ts = elim (lookup table marks) [
  | none ↦ insert table ts marks
  | some cur ↦ if not (bytes_lt cur ts) then marks else insert table ts marks
]

-- `guard`
unfoldable pub guard_text : List (String × List ℕ) → String → ℕ → List ℕ
unfolding watermark_text
guard_text marks table ms =
    let ts = event_ts ms in
    let last = watermark_text marks table in
    if not (is_empty last) && bytes_lt ts last then last else ts
