-- ===== src/Pipeline/Config.antt =====
-- `drainConfig` of cmd/projector/main.go and the config snapshot of cmd/projector/state.go. Go walks a
-- map in any order, so the current values are a list in any order.
use canebot_projector_repo.Base.{
  ℕ, String, Bool, true, false, none, some, List, [], ◌∷◌, lookup, insert, str_eq, if◌then◌else◌,
}
use canebot_projector_repo.Tracker.State.{Tracker}
use canebot_projector_repo.Tracker.Inputs.{apply_config_change}

-- `SetConfigSnapshot`
unfoldable pub set_config_snapshot :
    List (String × String) → List (String × String) → List (String × String)
set_config_snapshot snapshot [] = snapshot
set_config_snapshot snapshot ((k, v) ∷ m) = set_config_snapshot (insert k v snapshot) m

-- Whether the value is the one of the snapshot.
unfoldable pub is_unchanged : List (String × String) → String → String → Bool
is_unchanged previous k v = elim (lookup k previous) [ none ↦ false | some old ↦ str_eq old v ]

-- The tracker is told of a value that has changed, but not of one that was not there before.
unfoldable pub tell_change : List (String × String) → ℕ → Tracker → String → String → Tracker
tell_change previous at t k v = elim (lookup k previous) [
  | none ↦ t
  | some old ↦ apply_config_change t k old v at
]

-- The loop, and whether anything has changed.
unfoldable pub diff_config :
    List (String × String) → ℕ → Tracker → Bool → List (String × String) → Tracker × Bool
unfolding is_unchanged tell_change
diff_config previous at t changed [] = (t, changed)
diff_config previous at t changed ((k, v) ∷ m) =
    let kept = diff_config previous at t changed m in
    let told = diff_config previous at (tell_change previous at t k v) true m in
    if is_unchanged previous k v then kept else told

unfoldable pub drain_config :
    List (String × String) → ℕ → Tracker → List (String × String) → Tracker × List (String × String)
unfolding diff_config set_config_snapshot
drain_config previous at t current =
    let (t', changed) = diff_config previous at t false current in
    (t', if changed then set_config_snapshot previous current else previous)
