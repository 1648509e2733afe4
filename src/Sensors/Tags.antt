-- ===== src/Sensors/Tags.antt =====
-- The order of the inputs in a bit string: `parseInputTag` and `buildSensorBitOrder` of
-- cmd/projector/sensors.go, with `Atoi` of Go's package strconv.
use Prim.Native.Char.{code}
use Prim.Native.String.{[], ◌∷◌}
use canebot_projector_repo.Base.{
  ℕ, ◌+◌, ◌-◌, ◌*◌, String, Bool, true, false, not, ◌&&◌, Option, none, some, List, [], ◌∷◌, ltb,
  leb, ◌==◌, ℤ, pos, negsuc, sort, if◌then◌else◌,
}

-- The characters of a text, by number.
abbrev pub codes : String → List ℕ
codes [] = []
codes (c ∷ s) = code c ∷ codes s

-- The value of digits behind others of value `n`.
unfoldable pub digits_value : ℕ → List ℕ → Option ℕ
digits_value n [] = some n
digits_value n (c ∷ cs) =
    let rest = digits_value (n * 10 + (c - 48)) cs in if leb 48 c && leb c 57 then rest else none

abbrev pub unsigned : List ℕ → Option ℕ
unsigned [] = none
unsigned (c ∷ cs) = digits_value 0 (c ∷ cs)

-- The bounds of an int of 64 bits.
unfoldable pub positive : Option ℕ → Option ℤ
positive none = none
positive (some n) = if ltb n 9223372036854775808 then some (pos n) else none

unfoldable pub negative : Option ℕ → Option ℤ
negative none = none
negative (some n) =
    if n == 0
    then some (pos 0)
    else if leb n 9223372036854775808
    then some (negsuc (n - 1))
    else none

-- `strconv.Atoi`
unfoldable pub atoi : List ℕ → Option ℤ
unfolding positive negative
atoi [] = none
atoi (c ∷ cs) =
    if c == b'-'
    then negative (unsigned cs)
    else if c == b'+'
    then positive (unsigned cs)
    else positive (unsigned (c ∷ cs))

-- `strings.TrimPrefix(tag, "X")`
unfoldable pub trim_x : List ℕ → List ℕ
trim_x [] = []
trim_x (c ∷ cs) = if c == b'X' then cs else c ∷ cs

-- What stands before the first dot, and behind it.
unfoldable pub split_dot : List ℕ → Option (List ℕ × List ℕ)
split_dot [] = none
split_dot (c ∷ cs) =
    let rest = split_dot cs in
    if c == b'.'
    then some ([], cs)
    else elim rest [ none ↦ none | some (before, behind) ↦ some (c ∷ before, behind) ]

-- The pair of a byte and a bit, of what `Atoi` makes of both.
abbrev pub pair_of : Option ℤ → Option ℤ → ℤ × ℤ
pair_of none bit = (pos 1073741824, pos 0)
pair_of (some b) none = (b, pos 1073741824)
pair_of (some b) (some bit) = (b, bit)

abbrev pub pair_of_parts : Option (List ℕ × List ℕ) → ℤ × ℤ
pair_of_parts none = (pos 1073741824, pos 0)
pair_of_parts (some (before, behind)) = pair_of (atoi before) (atoi behind)

unfoldable pub parse_codes : List ℕ → ℤ × ℤ
unfolding trim_x split_dot
parse_codes s = pair_of_parts (split_dot (trim_x s))

-- `parseInputTag`
unfoldable pub parse_input_tag : String → ℤ × ℤ
unfolding parse_codes
parse_input_tag tag = parse_codes (codes tag)

abbrev pub less : ℤ → ℤ → Bool
less (pos m) (pos n) = ltb m n
less (pos m) (negsuc n) = false
less (negsuc m) (pos n) = true
less (negsuc m) (negsuc n) = ltb n m

abbrev pub is_same : ℤ → ℤ → Bool
is_same (pos m) (pos n) = m == n
is_same (pos m) (negsuc n) = false
is_same (negsuc m) (pos n) = false
is_same (negsuc m) (negsuc n) = m == n

-- The order of the pairs of a byte and a bit.
abbrev pub less_pair : ℤ × ℤ → ℤ × ℤ → Bool
less_pair (b, s) (c, t) = if not (is_same b c) then less b c else less s t

-- The order of `sort.Slice` in `buildSensorBitOrder`.
unfoldable pub comes_first : String → String → Bool
unfolding parse_input_tag
comes_first s t = less_pair (parse_input_tag s) (parse_input_tag t)

-- `buildSensorBitOrder`, of what `io.AllDigitalInputs` returns.
unfoldable pub build_sensor_bit_order : List String → List String
unfolding comes_first sort
build_sensor_bit_order all = sort comes_first all
