-- ===== src/Clock/Dates.antt =====
-- Days are ordered as the texts of their dates are.
use canebot_projector_repo.Base.{
  ℕ, ◌+◌, ◌≤◌, ◌<◌, ◌≡◌, subst, ◌∙◌, inl, inr, true, List, [], ◌∷◌, ◌++◌, arith,
}
use canebot_projector_repo.Clock.Calendar.{
  walk, IsEarlier, walk-IsEarlier, walk-within, year_days, month_days, year_of, month_of,
}
use canebot_projector_repo.Clock.Text.{bytes_lt, pad2, pad4, date_text}
use canebot_projector_repo.Clock.Fields.{
  bytes_lt_same, pad2-lt, pad4-lt, Precedes, separated, field,
}

year_days-ge : (y : ℕ) → 365 ≤ year_days y
unfolding year_days
year_days-ge y = ground arith

year_days-le : (y : ℕ) → year_days y ≤ 366
unfolding year_days
year_days-le y = ground arith

month_days-ge : (y m : ℕ) → 28 ≤ month_days y m
unfolding month_days
month_days-ge y m = ground arith

month_days-le : (y m : ℕ) → month_days y m ≤ 31
unfolding month_days
month_days-le y m = ground arith

-- The last day whose year has four digits, at least.
abbrev pub last_day : ℕ
last_day = 2930949

year_of-bounds :
    (days : ℕ) → days ≤ last_day → ((year_of days).0 < 10000) × ((year_of days).1 < 366)
unfolding year_of
year_of-bounds days h =
    let (y, d) = walk-within year_days 365 8030 1970 days year_days-ge (omega (arith, h)) in
    (y, omega (arith, d, year_days-le (walk year_days 8030 1970 days).0))

month_of-bounds : (y day : ℕ) → day < 366 → ((month_of y day).0 < 15) × ((month_of y day).1 < 31)
unfolding month_of
month_of-bounds y day h =
    let (m, d) = walk-within (month_days y) 28 14 1 day (month_days-ge y) (omega (arith, h)) in
    (m, omega (arith, d, month_days-le y (walk (month_days y) 14 1 day).0))

year_of-IsEarlier : (i j : ℕ) → i < j → IsEarlier (year_of i) (year_of j)
unfolding year_of
year_of-IsEarlier i j h = walk-IsEarlier year_days 8030 1970 i j h

month_of-IsEarlier : (y c d : ℕ) → c < d → IsEarlier (month_of y c) (month_of y d)
unfolding month_of
month_of-IsEarlier y c d h = walk-IsEarlier (month_days y) 14 1 c d h

-- What stands behind the year.
abbrev month_text : ℕ → ℕ → List ℕ → List ℕ
month_text y day rest = pad2 (month_of y day).0 ++ b'-' ∷ (pad2 ((month_of y day).1 + 1) ++ rest)

month_text-lt :
    (y c d : ℕ) (u v : List ℕ)
    → c < d
    → d < 366
    → bytes_lt (month_text y c u) (month_text y d v) ≡ true
month_text-lt y c d u v h k =
    let (m, e) = month_of-bounds y d k in
    field pad2 (month_of y c).0 (month_of y d).0 _ _
      (λ lt. pad2-lt (month_of y c).0 (month_of y d).0 _ _ lt (omega (arith, m)))
      (go (month_of-IsEarlier y c d h) m e)
  where
    go :
        IsEarlier (month_of y c) (month_of y d)
        → (month_of y d).0 < 15
        → (month_of y d).1 < 31
        → Precedes
            (month_of y c).0
            (month_of y d).0
            (b'-' ∷ (pad2 ((month_of y c).1 + 1) ++ u))
            (b'-' ∷ (pad2 ((month_of y d).1 + 1) ++ v))
    go (inl lt) m e = inl lt
    go (inr (same, lt)) m e = inr (
      same,
      separated b'-' _ _ (
          pad2-lt ((month_of y c).1 + 1) ((month_of y d).1 + 1) u v (omega (arith, lt))
            (omega (arith, e))),
    )

pub date_text-lt :
    (i j : ℕ) (u v : List ℕ)
    → i < j
    → j ≤ last_day
    → bytes_lt (date_text i u) (date_text j v) ≡ true
unfolding date_text
date_text-lt i j u v h k =
    let (y, d) = year_of-bounds j k in
    field pad4 (year_of i).0 (year_of j).0 _ _ (λ lt. pad4-lt (year_of i).0 (year_of j).0 _ _ lt y)
      (go (year_of-IsEarlier i j h) d)
  where
    go :
        IsEarlier (year_of i) (year_of j)
        → (year_of j).1 < 366
        → Precedes
            (year_of i).0
            (year_of j).0
            (b'-' ∷ month_text (year_of i).0 (year_of i).1 u)
            (b'-' ∷ month_text (year_of j).0 (year_of j).1 v)
    go (inl lt) d = inl lt
    go (inr (same, lt)) d = inr (
      same,
      separated b'-' _ _ (
          subst
            (λ y.
              bytes_lt (month_text (year_of i).0 (year_of i).1 u) (month_text y (year_of j).1 v)
              ≡ true)
            same (month_text-lt (year_of i).0 (year_of i).1 (year_of j).1 u v lt d)),
    )

pub date_text_same :
    (i : ℕ) (u v : List ℕ) → bytes_lt (date_text i u) (date_text i v) ≡ bytes_lt u v
unfolding date_text
date_text_same i u v =
    let (y, day) = year_of i in
    let (m, d) = month_of y day in
    bytes_lt_same (pad4 y) _ _
    ∙ bytes_lt_same (b'-' ∷ []) (pad2 m ++ b'-' ∷ (pad2 (d + 1) ++ u)) _
    ∙ bytes_lt_same (pad2 m) _ _
    ∙ bytes_lt_same (b'-' ∷ []) (pad2 (d + 1) ++ u) _
    ∙ bytes_lt_same (pad2 (d + 1)) u v
