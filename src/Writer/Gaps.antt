-- ===== src/Writer/Gaps.antt =====
-- `RecordGap` of cmd/projector/writer.go: a stretch in which the projector was not running.
use canebot_projector_repo.Base.{ℕ, ◌-◌, String, [], ◌∷◌, ◌++◌}
use canebot_projector_repo.Writer.Tables.{GapRow, Replica}
use canebot_projector_repo.Writer.Marks.{guard, set_watermark}
use canebot_projector_repo.Writer.Rows.{null_if_empty}

unfoldable pub gap_row : ℕ → ℕ → ℕ → String → String → String → GapRow
gap_row ts started_ms ended_ms reason version branch = record {
  event_ts = ts;
  started_at_ms = started_ms;
  ended_at_ms = ended_ms;
  duration_ms = ended_ms - started_ms;
  reason = reason;
  version = null_if_empty version;
  source_branch = null_if_empty branch;
}

unfoldable pub record_gap : Replica → ℕ → ℕ → String → String → String → Replica
unfolding gap_row guard set_watermark
record_gap r started_ms ended_ms reason version branch =
    let ts = guard r.marks "gaps" ended_ms in
    record r {
      gaps = r.gaps ++ gap_row ts started_ms ended_ms reason version branch ∷ [];
      marks = set_watermark r.marks "gaps" ts;
    }
