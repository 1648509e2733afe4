-- ===== src/Rollup/Cycles.antt =====
-- `aggregateCycles` of cmd/projector/rollup.go: the production cycles that started in [start, end).
use canebot_projector_repo.Base.{
  ℕ, suc, ◌+◌, String, Bool, ◌&&◌, ◌||◌, none, some, List, [], ◌∷◌, str_eq, ltb, leb, if◌then◌else◌,
}
use canebot_projector_repo.Writer.Tables.{Cycle}

pub record CycleAgg : Type 0 where
  pub glasses : ℕ
  pub started : ℕ
  pub completed : ℕ
  pub faulted : ℕ
  pub cycle_ms : ℕ
  pub cycle_count : ℕ

abbrev pub no_cycles : CycleAgg
no_cycles = record {
  glasses = 0;
  started = 0;
  completed = 0;
  faulted = 0;
  cycle_ms = 0;
  cycle_count = 0;
}

-- `WHERE is_production = 1 AND started_at_ms >= ? AND started_at_ms < ?`
unfoldable pub is_aggregated : ℕ → ℕ → Cycle → Bool
is_aggregated start end c =
    c.is_production && (leb start c.started_at_ms && ltb c.started_at_ms end)

-- `COALESCE(glass_count, 0)`
unfoldable pub glasses_of : Cycle → ℕ
glasses_of c = elim c.glass_count [ none ↦ 0 | some n ↦ n ]

unfoldable pub is_faulted : String → Bool
is_faulted result = str_eq result "faulted_recoverable" || str_eq result "faulted_non_recoverable"

-- What a cycle adds to the sums.
unfoldable pub add_cycle : Cycle → CycleAgg → CycleAgg
unfolding glasses_of is_faulted
add_cycle c a = record {
  glasses = (if str_eq c.result "completed" then glasses_of c else 0) + a.glasses;
  started = suc a.started;
  completed = (if str_eq c.result "completed" then 1 else 0) + a.completed;
  faulted = (if is_faulted c.result then 1 else 0) + a.faulted;
  cycle_ms = c.duration_ms + a.cycle_ms;
  cycle_count = suc a.cycle_count;
}

unfoldable pub aggregate_cycles : List Cycle → ℕ → ℕ → CycleAgg
unfolding is_aggregated add_cycle
aggregate_cycles [] start end = no_cycles
aggregate_cycles (c ∷ cs) start end =
    let rest = aggregate_cycles cs start end in
    if is_aggregated start end c then add_cycle c rest else rest
