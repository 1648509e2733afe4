-- ===== src/Rollup/Hours.antt =====
-- The figures of consecutive buckets, such as the hours of a day.
use canebot_projector_repo.Base.{ℕ, ◌+◌, ◌≤◌, ◌≡◌, sym, ap, ◌∙◌, List, [], ◌∷◌, arith}
use canebot_projector_repo.Rows.{OutStateDuration}
use canebot_projector_repo.Rollup.Occupancy.{StateOccupancy, no_occupancy, state_occupancy}
use canebot_projector_repo.Rollup.Overlap.{plus, state_occupancy_split}
use canebot_projector_repo.Rollup.Resume.{IsProgression}

-- What the buckets' figures add up to.
abbrev pub sum_buckets : List OutStateDuration → ℕ → List ℕ → StateOccupancy
sum_buckets ss width [] = no_occupancy
sum_buckets ss width (b ∷ bs) = plus (state_occupancy ss b (b + width)) (sum_buckets ss width bs)

double_zero : (o : StateOccupancy) → plus o o ≡ o → o ≡ no_occupancy
double_zero o e =
    let r : o.run_ms ≡ 0 = omega (arith, ap (λ (x : StateOccupancy). x.run_ms) e) in
    let f : o.errored ≡ 0 = omega (arith, ap (λ (x : StateOccupancy). x.errored) e) in
    let m : o.maintenance ≡ 0 = omega (arith, ap (λ (x : StateOccupancy). x.maintenance) e) in
    let i : o.idle ≡ 0 = omega (arith, ap (λ (x : StateOccupancy). x.idle) e) in
    ground (arith, r, f, m, i)

state_occupancy-empty : (ss : List OutStateDuration) (b : ℕ) → state_occupancy ss b b ≡ no_occupancy
state_occupancy-empty ss b =
    double_zero (state_occupancy ss b b)
      (state_occupancy_split ss b b b (omega arith) (omega arith))

IsProgression-le : (width b : ℕ) (bs : List ℕ) (stop : ℕ) → IsProgression width b bs stop → b ≤ stop
IsProgression-le width b [] stop p = omega (arith, p)
IsProgression-le width b (x ∷ xs) stop p =
    omega (arith, IsProgression-le width (b + width) xs stop p.1)

-- The figures of buckets that follow one another add up to the figures of the period that they fill:
-- those of the 24 hours of a day to those of the day.
pub sum_buckets-period :
    (ss : List OutStateDuration) (width b : ℕ) (bs : List ℕ) (stop : ℕ)
    → IsProgression width b bs stop
    → sum_buckets ss width bs ≡ state_occupancy ss b stop
sum_buckets-period ss width b [] stop p =
    sym (state_occupancy-empty ss b) ∙ ap (state_occupancy ss b) p
sum_buckets-period ss width b (x ∷ xs) stop p =
    ap (λ y. plus (state_occupancy ss y (y + width)) (sum_buckets ss width xs)) p.0
    ∙ ap (plus (state_occupancy ss b (b + width)))
        (sum_buckets-period ss width (b + width) xs stop p.1)
    ∙ state_occupancy_split ss b (b + width) stop (omega arith)
        (IsProgression-le width (b + width) xs stop p.1)
