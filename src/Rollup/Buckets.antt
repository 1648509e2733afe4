-- ===== src/Rollup/Buckets.antt =====
-- `emitHourly` and `emitDaily` of cmd/projector/rollup.go: which buckets are emitted, and the cursor.
use canebot_projector_repo.Base.{
  ℕ, zero, suc, ◌+◌, ◌-◌, ◌%◌, Option, none, some, List, [], ◌∷◌, leb, ◌==◌, if◌then◌else◌,
}

abbrev pub hour_ms : ℕ
hour_ms = 3600000

abbrev pub day_ms : ℕ
day_ms = 86400000

-- `bucketMS` of cmd/projector/writer.go
unfoldable pub bucket_ms : ℕ → ℕ → ℕ
bucket_ms ms width_ms = ms - ms % width_ms

-- `hourBucket`
unfoldable pub hour_bucket : ℕ → ℕ
hour_bucket ms = ms - ms % hour_ms

-- `earliestBucket`, of the first time that a row has, if there is a row.
unfoldable pub earliest_bucket : Option ℕ → Option ℕ
unfolding hour_bucket
earliest_bucket none = none
earliest_bucket (some ms) = some (hour_bucket ms)

-- The day of the earliest bucket: `earliest - (earliest % dayMS)`.
unfoldable pub earliest_day : Option ℕ → Option ℕ
earliest_day none = none
earliest_day (some ms) = some (ms - ms % day_ms)

-- The bucket that the loop starts with: behind the cursor, or where there is none yet at `start`.
unfoldable pub first_bucket : ℕ → ℕ → Option ℕ → Option ℕ
first_bucket width last start = if last == 0 then start else some (last + width)

-- `for b := next; b+width <= upTo; b += width`: the buckets that are emitted, and the cursor.
-- The width is positive, so `up_to + 1` rounds are enough.
unfoldable pub emit_from : ℕ → ℕ → ℕ → ℕ → ℕ → List ℕ × ℕ
emit_from zero width up_to b last = ([], last)
emit_from (suc fuel) width up_to b last =
    let rest = emit_from fuel width up_to (b + width) b in
    if leb (b + width) up_to then (b ∷ rest.0, rest.1) else ([], last)

unfoldable pub emit_buckets : ℕ → Option ℕ → ℕ → ℕ → List ℕ × ℕ
unfolding first_bucket emit_from
emit_buckets width start up_to last = elim (first_bucket width last start) [
  | none ↦ ([], last)
  | some b ↦ emit_from (suc up_to) width up_to b last
]

-- `emitDerived` with nothing processed yet emits nothing.
unfoldable pub emit_derived : ℕ → Option ℕ → ℕ → ℕ → List ℕ × ℕ
unfolding emit_buckets
emit_derived width start up_to last =
    if up_to == 0 then ([], last) else emit_buckets width start up_to last

-- `emitHourly` and `emitDaily` behind the guard of `emitDerived`, where the first row is at `earliest`.
unfoldable pub emit_hourly : Option ℕ → ℕ → ℕ → List ℕ × ℕ
unfolding earliest_bucket emit_derived
emit_hourly earliest up_to last = emit_derived hour_ms (earliest_bucket earliest) up_to last

unfoldable pub emit_daily : Option ℕ → ℕ → ℕ → List ℕ × ℕ
unfolding earliest_bucket earliest_day emit_derived
emit_daily earliest up_to last =
    emit_derived day_ms (earliest_day (earliest_bucket earliest)) up_to last
