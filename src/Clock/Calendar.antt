-- ===== src/Clock/Calendar.antt =====
-- The calendar, as Go's package time has it: from days since 1970 to year, month and day.
use canebot_projector_repo.Base.{
  ℕ, zero, suc, ◌+◌, ◌-◌, ◌*◌, ◌%◌, ◌≤◌, ◌<◌, ◌≡◌, refl, ◌⊎◌, inl, inr, Bool, false, not, ◌&&◌,
  ◌||◌, ltb, ltb→lt, ◌==◌, arith, Bool-cases, if◌then◌else◌,
}

-- From period `k` on, where period `j` has `length j` days, the period that day `n` lies in, and its
-- day there.
unfoldable pub walk : (ℕ → ℕ) → ℕ → ℕ → ℕ → ℕ × ℕ
walk length zero k n = (k, n)
walk length (suc fuel) k n =
    let rest = walk length fuel (suc k) (n - length k) in if ltb n (length k) then (k, n) else rest

-- The earlier one, by period and then by day.
abbrev pub IsEarlier : ℕ × ℕ → ℕ × ℕ → Type 0
IsEarlier a b = (a.0 < b.0) ⊎ ((a.0 ≡ b.0) × (a.1 < b.1))

module _ (length : ℕ → ℕ) where
  walk-ge : (fuel k n : ℕ) → k ≤ (walk length fuel k n).0
  unfolding walk
  walk-ge zero k n = omega arith
  walk-ge (suc fuel) k n = ground (arith, walk-ge fuel (suc k) (n - length k))

  -- A later day is later.
  pub walk-IsEarlier :
      (fuel k n m : ℕ) → n < m → IsEarlier (walk length fuel k n) (walk length fuel k m)
  unfolding walk
  walk-IsEarlier zero k n m h = inr (refl, h)
  walk-IsEarlier (suc fuel) k n m h = elim (Bool-cases (ltb n (length k))) [
    | inl e ↦ elim (Bool-cases (ltb m (length k))) [
      | inl f ↦ rw (e, f) (inr (refl, h))
      | inr f ↦ rw (e, f) (inl (omega (arith, walk-ge fuel (suc k) (m - length k))))
    ]
    | inr e ↦
        let f : ltb m (length k) ≡ false = ground (arith, h, e) in
        let lt : n - length k < m - length k = ground (arith, h, e) in
        rw (e, f) (walk-IsEarlier fuel (suc k) (n - length k) (m - length k) lt)
  ]

  -- Where all periods have `c` days at least, fuel for `fuel * c` days is enough.
  pub walk-within :
      (c fuel k n : ℕ)
      → ((j : ℕ) → c ≤ length j)
      → n < fuel * c
      → let (j, d) = walk length fuel k n in (j < k + fuel) × (d < length j)
  unfolding walk
  walk-within c zero k n le h = absurd (omega (arith, h))
  walk-within c (suc fuel) k n le h = elim (Bool-cases (ltb n (length k))) [
    | inl e ↦ rw e (omega arith, ltb→lt _ _ e)
    | inr e ↦
        let lt : n - length k < fuel * c = grind (arith, h, e, le k) in
        let (j, d) = walk-within c fuel (suc k) (n - length k) le lt in rw e (omega (arith, j), d)
  ]

unfoldable pub is_leap : ℕ → Bool
is_leap y = (y % 4 == 0 && not (y % 100 == 0)) || y % 400 == 0

unfoldable pub year_days : ℕ → ℕ
unfolding is_leap
year_days y = if is_leap y then 366 else 365

unfoldable pub month_days : ℕ → ℕ → ℕ
unfolding is_leap
month_days y m =
    if m == 2
    then if is_leap y then 29 else 28
    else if m == 4 || (m == 6 || (m == 9 || m == 11))
    then 30
    else 31

-- The year of a day, from 1970 on and before 10000, and its day in the year.
unfoldable pub year_of : ℕ → ℕ × ℕ
unfolding walk year_days
year_of days = walk year_days 8030 1970 days

-- The month of a day of the year, from 1, and its day there, from 0. Twelve rounds would do.
unfoldable pub month_of : ℕ → ℕ → ℕ × ℕ
unfolding walk month_days
month_of y day = walk (month_days y) 14 1 day
