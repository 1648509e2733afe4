-- ===== src/Examples/OfClock.antt =====
-- Timestamps as texts, and the theorems on them at concrete inputs.
use canebot_projector_repo.Base.{ℕ, String, ◌≡◌, refl, true, false, List, [], ◌∷◌, arith}
use canebot_projector_repo.Clock.Calendar.{walk, year_of, month_of, year_days, month_days, is_leap}
use canebot_projector_repo.Clock.Text.{
  pad2, pad3, pad4, date_text, time_text, bytes_lt, event_ts, date_utc_text,
}
use canebot_projector_repo.Clock.Marks.{guard_text, set_watermark_text}
use canebot_projector_repo.Clock.Order.{event_ts-order}
use canebot_projector_repo.Clock.Refined.{shown, shown-marks}
use canebot_projector_repo.Writer.Marks.{set_watermark, guard}

event_ts_value :
    event_ts 1700000000123
    ≡ b'2' ∷ b'0' ∷ b'2' ∷ b'3' ∷ b'-' ∷ b'1' ∷ b'1' ∷ b'-' ∷ b'1' ∷ b'4' ∷ b'T' ∷ b'2' ∷ b'2'
      ∷ b':' ∷ b'1' ∷ b'3' ∷ b':' ∷ b'2' ∷ b'0' ∷ b'.' ∷ b'1' ∷ b'2' ∷ b'3' ∷ b'0' ∷ b'0' ∷ b'0'
      ∷ b'0' ∷ b'0' ∷ b'0' ∷ b'Z' ∷ []
unfolding event_ts date_text time_text pad2 pad3 pad4 year_of month_of walk year_days month_days
    is_leap
event_ts_value = refl

leap_day :
    date_utc_text 1709164800000
    ≡ b'2' ∷ b'0' ∷ b'2' ∷ b'4' ∷ b'-' ∷ b'0' ∷ b'2' ∷ b'-' ∷ b'2' ∷ b'9' ∷ []
unfolding date_utc_text date_text pad2 pad4 year_of month_of walk year_days month_days is_leap
leap_day = refl

event_ts-order_example :
    (bytes_lt (event_ts 1700000000123) (event_ts 1700000000200) ≡ true)
    × (bytes_lt (date_utc_text 1700000000123) (date_utc_text 1700000000200) ≡ false)
event_ts-order_example = event_ts-order 1700000000123 1700000000200 (omega arith) (omega arith)

abbrev a_mark : List (String × ℕ)
a_mark = ("cycles", 1700000000200) ∷ []

shown-marks_example :
    (guard_text (shown a_mark) "cycles" 1700000000123
      ≡ event_ts (guard a_mark "cycles" 1700000000123))
    × (set_watermark_text (shown a_mark) "cycles" (event_ts 1700000000123)
        ≡ shown (set_watermark a_mark "cycles" 1700000000123))
shown-marks_example = shown-marks a_mark "cycles" 1700000000123 (omega arith, tt) (omega arith)
