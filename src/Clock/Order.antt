-- ===== src/Clock/Order.antt =====
-- Timestamps and dates are ordered as their texts are.
use canebot_projector_repo.Base.{
  ℕ, ◌/◌, ◌%◌, ◌≤◌, ◌<◌, ◌≡◌, ◌∙◌, inl, inr, true, [], ltb, ltb→lt, arith, Bool-cases,
}
use canebot_projector_repo.Clock.Text.{bytes_lt, date_text, event_ts, date_utc_text}
use canebot_projector_repo.Clock.Fields.{monotone}
use canebot_projector_repo.Clock.Times.{time_text-lt}
use canebot_projector_repo.Clock.Dates.{last_day, date_text-lt, date_text_same}

event_ts-lt :
    (a b : ℕ) → a < b → b / 86400000 ≤ last_day → bytes_lt (event_ts a) (event_ts b) ≡ true
unfolding event_ts
event_ts-lt a b h k = elim (Bool-cases (ltb (a / 86400000) (b / 86400000))) [
  | inl e ↦ date_text-lt (a / 86400000) (b / 86400000) _ _ (ltb→lt _ _ e) k
  | inr e ↦
      let same : a / 86400000 ≡ b / 86400000 = ground (arith, e, h) in
      rw same (
        date_text_same (b / 86400000) _ _
        ∙ time_text-lt (a % 86400000) (b % 86400000) (omega (arith, h, same)) (omega arith))
]

-- Until the end of the year 9999, the texts of `eventTS` are ordered bytewise as the times in
-- milliseconds are, and those of `dateUTC` as the days are.
pub event_ts-order :
    (a b : ℕ)
    → a / 86400000 ≤ last_day
    → b / 86400000 ≤ last_day
    → (bytes_lt (event_ts a) (event_ts b) ≡ ltb a b)
      × (bytes_lt (date_utc_text a) (date_utc_text b) ≡ ltb (a / 86400000) (b / 86400000))
unfolding date_utc_text
event_ts-order a b h k = (
  monotone event_ts a b (λ lt. event_ts-lt a b lt k) (λ gt. event_ts-lt b a gt h),
  monotone (λ day. date_text day []) (a / 86400000) (b / 86400000)
      (λ lt. date_text-lt (a / 86400000) (b / 86400000) [] [] lt k)
      (λ gt. date_text-lt (b / 86400000) (a / 86400000) [] [] gt h),
)
