-- ===== src/Rollup/Counted.antt =====
-- Every cycle is counted once: the sums of two periods that follow one another are those of both.
use canebot_projector_repo.Base.{
  ℕ, ◌+◌, ◌≤◌, ◌≡◌, refl, ap, ◌∙◌, ◌⊎◌, true, false, List, [], ◌∷◌, leb, ltb, arith, Bool-cases,
  inl, inr,
}
use canebot_projector_repo.Writer.Tables.{Cycle}
use canebot_projector_repo.Rollup.Cycles.{CycleAgg, is_aggregated, add_cycle, aggregate_cycles}

abbrev pub plus_cycles : CycleAgg → CycleAgg → CycleAgg
plus_cycles a b = record {
  glasses = a.glasses + b.glasses;
  started = a.started + b.started;
  completed = a.completed + b.completed;
  faulted = a.faulted + b.faulted;
  cycle_ms = a.cycle_ms + b.cycle_ms;
  cycle_count = a.cycle_count + b.cycle_count;
}

add_cycle-left :
    (c : Cycle) (a b : CycleAgg) → plus_cycles (add_cycle c a) b ≡ add_cycle c (plus_cycles a b)
unfolding add_cycle
add_cycle-left c a b = ground arith

add_cycle-right :
    (c : Cycle) (a b : CycleAgg) → plus_cycles a (add_cycle c b) ≡ add_cycle c (plus_cycles a b)
unfolding add_cycle
add_cycle-right c a b = ground arith

-- A cycle belongs to the first period, to the second, or to neither.
is_aggregated_split :
    (start mid end : ℕ) (c : Cycle)
    → start ≤ mid
    → mid ≤ end
    → ((is_aggregated start mid c ≡ true)
        × (is_aggregated mid end c ≡ false)
        × (is_aggregated start end c ≡ true))
      ⊎ (((is_aggregated start mid c ≡ false)
            × (is_aggregated mid end c ≡ true)
            × (is_aggregated start end c ≡ true))
          ⊎ ((is_aggregated start mid c ≡ false)
              × (is_aggregated mid end c ≡ false)
              × (is_aggregated start end c ≡ false)))
unfolding is_aggregated
is_aggregated_split start mid end c h k = elim (Bool-cases c.is_production) [
  | inr p ↦ inr (inr (ground (arith, p), ground (arith, p), ground (arith, p)))
  | inl p ↦ elim (Bool-cases (ltb c.started_at_ms mid)) [
    | inl early ↦ elim (Bool-cases (leb start c.started_at_ms)) [
      | inl inside ↦ inl (
        ground (arith, p, early, inside),
        ground (arith, p, early),
        ground (arith, p, early, inside, k),
      )
      | inr before ↦
          inr (inr (ground (arith, p, before), ground (arith, p, early), ground (arith, p, before)))
    ]
    | inr late ↦ elim (Bool-cases (ltb c.started_at_ms end)) [
      | inl inside ↦ inr (
          inl (
            ground (arith, p, late),
            ground (arith, p, late, inside),
            ground (arith, p, late, inside, h),
          ))
      | inr behind ↦
          inr (inr (ground (arith, p, late), ground (arith, p, behind), ground (arith, p, behind)))
    ]
  ]
]

-- The sums of the production cycles that started in two periods, the second of which begins where the
-- first ends, add up to those of the period that the two make.
pub aggregate_cycles_split :
    (cs : List Cycle) (start mid end : ℕ)
    → start ≤ mid
    → mid ≤ end
    → plus_cycles (aggregate_cycles cs start mid) (aggregate_cycles cs mid end)
      ≡ aggregate_cycles cs start end
unfolding aggregate_cycles
aggregate_cycles_split [] start mid end h k = refl
aggregate_cycles_split (c ∷ cs) start mid end h k =
    let ih = aggregate_cycles_split cs start mid end h k in
    let first = aggregate_cycles cs start mid in
    let second = aggregate_cycles cs mid end in
    elim (is_aggregated_split start mid end c h k) [
      | inl (a, b, d) ↦ simp (a, b, d) (add_cycle-left c first second ∙ ap (add_cycle c) ih)
      | inr (inl (a, b, d)) ↦ simp (a, b, d) (add_cycle-right c first second ∙ ap (add_cycle c) ih)
      | inr (inr (a, b, d)) ↦ simp (a, b, d) ih
    ]
