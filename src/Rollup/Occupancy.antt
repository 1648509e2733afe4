-- ===== src/Rollup/Occupancy.antt =====
-- `stateOccupancy` and `overlapMS` of cmd/projector/rollup.go: how long the machine held each state
-- within [start, end).
use canebot_projector_repo.Base.{
  ℕ, ◌+◌, ◌-◌, String, Bool, ◌&&◌, List, [], ◌∷◌, ltb, leb, str_eq, if◌then◌else◌,
}
use canebot_projector_repo.Rows.{OutStateDuration}

-- The length of the intersection of [s, e) and [bs, be).
unfoldable pub overlap_ms : ℕ → ℕ → ℕ → ℕ → ℕ
overlap_ms s e bs be =
    let lo = if ltb s bs then bs else s in
    let hi = if ltb be e then be else e in if leb hi lo then 0 else hi - lo

pub record StateOccupancy : Type 0 where
  pub run_ms : ℕ
  pub errored : ℕ
  pub maintenance : ℕ
  pub idle : ℕ

abbrev pub no_occupancy : StateOccupancy
no_occupancy = record { run_ms = 0; errored = 0; maintenance = 0; idle = 0 }

-- `ms` in the state is added to the state's figure.
unfoldable pub add_occupancy : StateOccupancy → String → ℕ → StateOccupancy
add_occupancy o state ms =
    if str_eq state "AutoCycle"
    then record o { run_ms = o.run_ms + ms }
    else if str_eq state "Error"
    then record o { errored = o.errored + ms }
    else if str_eq state "Maintenance"
    then record o { maintenance = o.maintenance + ms }
    else record o { idle = o.idle + ms }

-- `WHERE exited_at_ms > ? AND entered_at_ms < ?`
unfoldable pub is_within : ℕ → ℕ → OutStateDuration → Bool
is_within bs be s = ltb bs s.exited_at_ms && ltb s.entered_at_ms be

-- One row of the query's result.
unfoldable pub occupy : ℕ → ℕ → StateOccupancy → OutStateDuration → StateOccupancy
unfolding overlap_ms add_occupancy
occupy bs be o s =
    let ms = overlap_ms s.entered_at_ms s.exited_at_ms bs be in
    if leb ms 0 then o else add_occupancy o s.state ms

-- The loop over the rows, from the figures `o`.
unfoldable pub occupy_all : ℕ → ℕ → StateOccupancy → List OutStateDuration → StateOccupancy
unfolding is_within occupy
occupy_all bs be o [] = o
occupy_all bs be o (s ∷ ss) =
    if is_within bs be s then occupy_all bs be (occupy bs be o s) ss else occupy_all bs be o ss

unfoldable pub state_occupancy : List OutStateDuration → ℕ → ℕ → StateOccupancy
unfolding occupy_all
state_occupancy spans bs be = occupy_all bs be no_occupancy spans
