-- ===== src/Clock/Times.antt =====
-- The times of one day are ordered as their texts are.
use canebot_projector_repo.Base.{ℕ, ◌/◌, ◌%◌, ◌<◌, ◌≡◌, true, List, [], ◌∷◌, ◌++◌, arith}
use canebot_projector_repo.Clock.Text.{bytes_lt, pad2, pad3, time_text}
use canebot_projector_repo.Clock.Fields.{pad2-lt, pad3-lt, separated, field, decide}

-- What stands behind the seconds.
abbrev fraction : ℕ → List ℕ
fraction ms = pad3 ms ++ b'0' ∷ b'0' ∷ b'0' ∷ b'0' ∷ b'0' ∷ b'0' ∷ b'Z' ∷ []

abbrev seconds : ℕ → List ℕ
seconds ms = pad2 (ms / 1000 % 60) ++ b'.' ∷ fraction (ms % 1000)

abbrev minutes : ℕ → List ℕ
minutes ms = pad2 (ms / 60000 % 60) ++ b':' ∷ seconds ms

seconds-lt : (a b : ℕ) → a < b → a / 60000 ≡ b / 60000 → bytes_lt (seconds a) (seconds b) ≡ true
seconds-lt a b h e =
    field pad2 (a / 1000 % 60) (b / 1000 % 60) _ _ (λ lt. pad2-lt _ _ _ _ lt (omega arith))
      (decide (a / 1000 % 60) (b / 1000 % 60) _ _ (omega (arith, h, e)) (λ same.
        separated b'.' _ _
          (pad3-lt (a % 1000) (b % 1000) _ _ (omega (arith, h, e, same)) (omega arith))))

minutes-lt : (a b : ℕ) → a < b → a / 3600000 ≡ b / 3600000 → bytes_lt (minutes a) (minutes b) ≡ true
minutes-lt a b h e =
    field pad2 (a / 60000 % 60) (b / 60000 % 60) _ _ (λ lt. pad2-lt _ _ _ _ lt (omega arith))
      (decide (a / 60000 % 60) (b / 60000 % 60) _ _ (omega (arith, h, e)) (λ same.
        separated b':' (seconds a) (seconds b) (seconds-lt a b h (omega (arith, h, e, same)))))

pub time_text-lt : (a b : ℕ) → a < b → b < 86400000 → bytes_lt (time_text a) (time_text b) ≡ true
unfolding time_text
time_text-lt a b h k = separated b'T' _ _ (
    field pad2 (a / 3600000) (b / 3600000) _ _ (λ lt. pad2-lt _ _ _ _ lt (omega (arith, k)))
      (decide (a / 3600000) (b / 3600000) _ _ (omega (arith, h))
        (λ same. separated b':' (minutes a) (minutes b) (minutes-lt a b h same))))
