-- ===== src/Clock/Text.antt =====
-- `eventTS` and `dateUTC`, as bytes, and the order of texts.
use canebot_projector_repo.Base.{
  ℕ, ◌+◌, ◌/◌, ◌%◌, Bool, true, false, List, [], ◌∷◌, ◌++◌, ltb, ◌==◌, if◌then◌else◌,
}
use canebot_projector_repo.Clock.Calendar.{year_of, month_of}

-- `s < t`, bytewise.
unfoldable pub bytes_lt : List ℕ → List ℕ → Bool
bytes_lt [] [] = false
bytes_lt [] (y ∷ ys) = true
bytes_lt (x ∷ xs) [] = false
bytes_lt (x ∷ xs) (y ∷ ys) = if x == y then bytes_lt xs ys else ltb x y

abbrev pub ascii_digit : ℕ → ℕ
ascii_digit n = 48 + n % 10

-- A number in two, three and four digits.
unfoldable pub pad2 : ℕ → List ℕ
pad2 n = ascii_digit (n / 10) ∷ ascii_digit n ∷ []

unfoldable pub pad3 : ℕ → List ℕ
pad3 n = ascii_digit (n / 100) ∷ ascii_digit (n / 10) ∷ ascii_digit n ∷ []

unfoldable pub pad4 : ℕ → List ℕ
pad4 n = ascii_digit (n / 1000) ∷ ascii_digit (n / 100) ∷ ascii_digit (n / 10) ∷ ascii_digit n ∷ []

-- "2006-01-02" of a day since 1970, and what follows it.
unfoldable pub date_text : ℕ → List ℕ → List ℕ
unfolding pad2 pad4 year_of month_of
date_text days rest =
    let (y, day) = year_of days in
    let (m, d) = month_of y day in pad4 y ++ b'-' ∷ (pad2 m ++ b'-' ∷ (pad2 (d + 1) ++ rest))

-- "T15:04:05.000000000" of the milliseconds of a day, and the letter Z.
unfoldable pub time_text : ℕ → List ℕ
unfolding pad2 pad3
time_text ms =
    b'T'
    ∷ (pad2 (ms / 3600000)
        ++ b':'
          ∷ (pad2 (ms / 60000 % 60)
              ++ b':'
                ∷ (pad2 (ms / 1000 % 60)
                    ++ b'.'
                      ∷ (pad3 (ms % 1000) ++ b'0' ∷ b'0' ∷ b'0' ∷ b'0' ∷ b'0' ∷ b'0' ∷ b'Z' ∷ []))))

-- `eventTS`
unfoldable pub event_ts : ℕ → List ℕ
unfolding date_text time_text
event_ts ms = date_text (ms / 86400000) (time_text (ms % 86400000))

-- `dateUTC`
unfoldable pub date_utc_text : ℕ → List ℕ
unfolding date_text
date_utc_text ms = date_text (ms / 86400000) []
