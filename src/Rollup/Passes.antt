-- ===== src/Rollup/Passes.antt =====
-- The passes of `emitDerived` over hours and over days.
use canebot_projector_repo.Base.{ℕ, ◌≤◌, ◌<◌, ◌≡◌, subst, Option, none, some, ◌++◌, arith}
use canebot_projector_repo.Rollup.Buckets.{
  hour_ms, day_ms, hour_bucket, earliest_bucket, earliest_day, emit_hourly, emit_daily,
}
use canebot_projector_repo.Rollup.Resume.{IsLater, emit_derived-resume}

-- The first row is not of 1 January 1970.
abbrev pub IsRecent : Option ℕ → Type 0
IsRecent none = Unit
IsRecent (some ms) = day_ms ≤ ms

of_some : (b c : ℕ) → some b ≡ some c → 0 < b → 0 < c
of_some b c e h = subst (λ (o : Option ℕ). 0 < elim o [ none ↦ 1 | some m ↦ m ]) e h

earliest_bucket-IsLater :
    (earliest : Option ℕ) → IsRecent earliest → IsLater (earliest_bucket earliest)
unfolding earliest_bucket hour_bucket
earliest_bucket-IsLater none h b e = cc
earliest_bucket-IsLater (some ms) h b e = of_some _ b e (omega arith)

earliest_day-IsLater :
    (earliest : Option ℕ) → IsRecent earliest → IsLater (earliest_day (earliest_bucket earliest))
unfolding earliest_bucket hour_bucket earliest_day
earliest_day-IsLater none h b e = cc
earliest_day-IsLater (some ms) h b e = of_some _ b e (omega arith)

-- Of the hours and of the days: two passes, the second of which sees the timeline at a later time,
-- emit the buckets that the second would have emitted alone, and leave the same cursor, where the
-- first row is not of 1 January 1970.
pub emit_passes-resume :
    (earliest : Option ℕ) (soon late hour_cursor day_cursor : ℕ)
    → soon ≤ late
    → IsRecent earliest
    → let (hours, hour_cursor') = emit_hourly earliest soon hour_cursor in
      let (hours', hour_cursor'') = emit_hourly earliest late hour_cursor' in
      let (days, day_cursor') = emit_daily earliest soon day_cursor in
      let (days', day_cursor'') = emit_daily earliest late day_cursor' in
      ((hours ++ hours', hour_cursor'') ≡ emit_hourly earliest late hour_cursor)
      × ((days ++ days', day_cursor'') ≡ emit_daily earliest late day_cursor)
unfolding emit_hourly emit_daily
emit_passes-resume earliest soon late hour_cursor day_cursor s h = (
  emit_derived-resume hour_ms (earliest_bucket earliest) soon late hour_cursor (omega arith) s
      (earliest_bucket-IsLater earliest h),
  emit_derived-resume day_ms (earliest_day (earliest_bucket earliest)) soon late day_cursor
      (omega arith) s (earliest_day-IsLater earliest h),
)
