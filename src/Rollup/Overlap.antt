-- ===== src/Rollup/Overlap.antt =====
-- The figures of a period are the sums of the figures of its parts.
use canebot_projector_repo.Base.{
  ℕ, ◌+◌, ◌≤◌, ◌≡◌, refl, sym, ap, ◌∙◌, String, false, List, [], ◌∷◌, arith, Bool-cases, inl, inr,
  leb,
}
use canebot_projector_repo.Rows.{OutStateDuration}
use canebot_projector_repo.Rollup.Occupancy.{
  overlap_ms, StateOccupancy, no_occupancy, add_occupancy, is_within, occupy, occupy_all,
  state_occupancy,
}

abbrev pub plus : StateOccupancy → StateOccupancy → StateOccupancy
plus a b = record {
  run_ms = a.run_ms + b.run_ms;
  errored = a.errored + b.errored;
  maintenance = a.maintenance + b.maintenance;
  idle = a.idle + b.idle;
}

pub overlap_ms_split :
    (s e bs m be : ℕ)
    → bs ≤ m
    → m ≤ be
    → overlap_ms s e bs m + overlap_ms s e m be ≡ overlap_ms s e bs be
unfolding overlap_ms
overlap_ms_split s e bs m be h k = ground arith

-- What a row adds, with the guards of the query and of the loop left out: they skip rows that add
-- nothing.
unfoldable pub occupy_row : ℕ → ℕ → OutStateDuration → StateOccupancy
unfolding overlap_ms add_occupancy
occupy_row bs be s =
    add_occupancy no_occupancy s.state (overlap_ms s.entered_at_ms s.exited_at_ms bs be)

overlap_ms-outside :
    (bs be : ℕ) (s : OutStateDuration)
    → is_within bs be s ≡ false
    → overlap_ms s.entered_at_ms s.exited_at_ms bs be ≡ 0
unfolding is_within overlap_ms
overlap_ms-outside bs be s h = ground arith

add_occupancy-plus :
    (o : StateOccupancy) (state : String) (ms : ℕ)
    → add_occupancy o state ms ≡ plus o (add_occupancy no_occupancy state ms)
unfolding add_occupancy
add_occupancy-plus o state ms = ground arith

add_occupancy-zero :
    (o : StateOccupancy) (state : String) → o ≡ plus o (add_occupancy no_occupancy state 0)
unfolding add_occupancy
add_occupancy-zero o state = ground arith

add_occupancy_split :
    (state : String) (a b : ℕ)
    → plus (add_occupancy no_occupancy state a) (add_occupancy no_occupancy state b)
      ≡ add_occupancy no_occupancy state (a + b)
unfolding add_occupancy
add_occupancy_split state a b = ground arith

occupy-plus :
    (bs be : ℕ) (o : StateOccupancy) (s : OutStateDuration)
    → occupy bs be o s ≡ plus o (occupy_row bs be s)
unfolding occupy occupy_row
occupy-plus bs be o s =
    let ms = overlap_ms s.entered_at_ms s.exited_at_ms bs be in
    elim (Bool-cases (leb ms 0)) [
      | inl h ↦
          let z : ms ≡ 0 = ground (arith, h) in simp (z, occupy) (add_occupancy-zero o s.state)
      | inr h ↦ simp (h, occupy) (add_occupancy-plus o s.state ms)
    ]

-- The figures, as a sum over all rows.
unfoldable pub occupancy_sum : List OutStateDuration → ℕ → ℕ → StateOccupancy
unfolding occupy_row
occupancy_sum [] bs be = no_occupancy
occupancy_sum (s ∷ ss) bs be = plus (occupy_row bs be s) (occupancy_sum ss bs be)

plus_assoc : (a b c : StateOccupancy) → plus (plus a b) c ≡ plus a (plus b c)
plus_assoc a b c = ground arith

occupy_all-sum :
    (bs be : ℕ) (o : StateOccupancy) (ss : List OutStateDuration)
    → occupy_all bs be o ss ≡ plus o (occupancy_sum ss bs be)
unfolding occupy_all occupancy_sum occupy_row
occupy_all-sum bs be o [] = ground arith
occupy_all-sum bs be o (s ∷ ss) = elim (Bool-cases (is_within bs be s)) [
  | inl h ↦
      simp (h, occupy_all)
        (occupy_all-sum bs be (occupy bs be o s) ss
          ∙ ap (λ x. plus x (occupancy_sum ss bs be)) (occupy-plus bs be o s)
          ∙ plus_assoc o (occupy_row bs be s) (occupancy_sum ss bs be))
  | inr h ↦
      let z = overlap_ms-outside bs be s h in
      let e : o ≡ plus o (occupy_row bs be s) = rw z (add_occupancy-zero o s.state) in
      simp (h, occupy_all)
        (occupy_all-sum bs be o ss
          ∙ ap (λ x. plus x (occupancy_sum ss bs be)) e
          ∙ plus_assoc o (occupy_row bs be s) (occupancy_sum ss bs be))
]

pub state_occupancy-sum :
    (ss : List OutStateDuration) (bs be : ℕ) → state_occupancy ss bs be ≡ occupancy_sum ss bs be
unfolding state_occupancy
state_occupancy-sum ss bs be =
    occupy_all-sum bs be no_occupancy ss ∙ sym (zero_plus (occupancy_sum ss bs be))
  where
    zero_plus : (o : StateOccupancy) → o ≡ plus no_occupancy o
    zero_plus o = ground arith

interchange : (a b c d : StateOccupancy) → plus (plus a b) (plus c d) ≡ plus (plus a c) (plus b d)
interchange a b c d = ground arith

occupancy_sum_split :
    (ss : List OutStateDuration) (bs m be : ℕ)
    → bs ≤ m
    → m ≤ be
    → plus (occupancy_sum ss bs m) (occupancy_sum ss m be) ≡ occupancy_sum ss bs be
unfolding occupancy_sum occupy_row
occupancy_sum_split [] bs m be h k = refl
occupancy_sum_split (s ∷ ss) bs m be h k =
    interchange (occupy_row bs m s) (occupancy_sum ss bs m) (occupy_row m be s)
      (occupancy_sum ss m be)
    ∙ ap (λ x. plus x (plus (occupancy_sum ss bs m) (occupancy_sum ss m be)))
        (add_occupancy_split s.state _ _
          ∙ ap (add_occupancy no_occupancy s.state)
              (overlap_ms_split s.entered_at_ms s.exited_at_ms bs m be h k))
    ∙ ap (plus (occupy_row bs be s)) (occupancy_sum_split ss bs m be h k)

-- The figures of two periods, the second of which begins where the first ends, add up to those of
-- the period that the two make.
pub state_occupancy_split :
    (ss : List OutStateDuration) (bs m be : ℕ)
    → bs ≤ m
    → m ≤ be
    → plus (state_occupancy ss bs m) (state_occupancy ss m be) ≡ state_occupancy ss bs be
state_occupancy_split ss bs m be h k =
    rw (state_occupancy-sum ss bs m, state_occupancy-sum ss m be, state_occupancy-sum ss bs be)
      (occupancy_sum_split ss bs m be h k)
