-- ===== src/Pipeline/Store.antt =====
-- The state store of cmd/projector/state.go: the cursors, the config snapshot and the time of the last
-- complete tick. The watermarks, which it keeps too, stand with the replica that they guard.
use canebot_projector_repo.Base.{ℕ, String, Option, none, some, List, [], lookup, insert}

-- A row of `source_cursors`.
pub record Cursor : Type 0 where
  pub last_src_id : ℕ
  pub last_closed_ms : ℕ

pub record Store : Type 0 where
  pub cursors : List (String × Cursor)
  pub config_snapshot : List (String × String)
  pub last_alive_ms : Option ℕ

abbrev pub empty_store : Store
empty_store = record { cursors = []; config_snapshot = []; last_alive_ms = none }

-- `Cursor`: zero where there is no row.
unfoldable pub cursor : Store → String → Cursor
cursor st table = elim (lookup table st.cursors) [
  | none ↦ record { last_src_id = 0; last_closed_ms = 0 }
  | some c ↦ c
]

unfoldable pub set_cursor : Store → String → ℕ → ℕ → Store
set_cursor st table last_id last_closed_ms = record st {
  cursors =
      insert table (record { last_src_id = last_id; last_closed_ms = last_closed_ms }) st.cursors;
}

-- `LastAlive`: 0 where no tick has completed.
unfoldable pub last_alive : Store → ℕ
last_alive st = elim st.last_alive_ms [ none ↦ 0 | some ms ↦ ms ]

unfoldable pub mark_alive : Store → ℕ → Store
mark_alive st ms = record st { last_alive_ms = some ms }
