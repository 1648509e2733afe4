-- ===== src/Base/Text.antt =====
-- Texts: what `fmt.Sprintf` makes of numbers, and the laws of the test on texts.
use Prim.Native.Nat.{ℕ, zero, suc, ◌/◌, ◌%◌}
use Prim.Native.String.{String, ◌++◌}
use mathlib.Core.List.{List, [], ◌∷◌}
use mathlib.Core.Path.{◌≡◌, refl}
use canebot_projector_repo.Base.Tests.{ltb, if◌then◌else◌}

infixr 65 ◌&◌
-- Concatenation.
abbrev pub ◌&◌ : String → String → String
s & t = s ++ t

-- The text at a place of a list, and the last one behind its end.
text_at : ℕ → List String → String
text_at n [] = ""
text_at n (d ∷ []) = d
text_at zero (d ∷ e ∷ ds) = d
text_at (suc n) (d ∷ e ∷ ds) = text_at n (e ∷ ds)

digit : ℕ → String
unfolding text_at
digit n = text_at n ("0" ∷ "1" ∷ "2" ∷ "3" ∷ "4" ∷ "5" ∷ "6" ∷ "7" ∷ "8" ∷ "9" ∷ [])

-- Any fuel above the number is enough.
show_fuel : ℕ → ℕ → String
unfolding digit
show_fuel zero n = ""
show_fuel (suc f) n =
    let rest = show_fuel f (n / 10) in if ltb n 10 then digit n else rest & digit (n % 10)

-- `%d` of a number that is not negative.
unfoldable pub show : ℕ → String
unfolding show_fuel
show n = show_fuel (suc n) n

-- `%04d` of a number below 10000.
unfoldable pub show_padded : ℕ → String
unfolding digit
show_padded n = digit (n / 1000) & digit (n / 100 % 10) & digit (n / 10 % 10) & digit (n % 10)

show_example : show 1700000000123 & show_padded 42 ≡ "17000000001230042"
unfolding show show_padded
show_example = refl
