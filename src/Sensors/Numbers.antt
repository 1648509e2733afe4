-- ===== src/Sensors/Numbers.antt =====
-- A tag is parsed to the byte and the bit that it is written from.
use canebot_projector_repo.Base.{
  ℕ, zero, suc, ◌+◌, ◌-◌, ◌*◌, ◌/◌, ◌%◌, ◌≤◌, ◌<◌, ◌≡◌, refl, ap, ◌∙◌, inl, inr, String, true,
  false, Option, some, List, [], ◌∷◌, ◌++◌, All, All-snoc, length, length-append, ltb, ◌==◌, arith,
  ℤ, pos, Bool-cases, if◌then◌else◌,
}
use canebot_projector_repo.Sensors.Tags.{
  codes, digits_value, positive, atoi, trim_x, split_dot, pair_of, pair_of_parts, parse_codes,
  parse_input_tag,
}

-- The digits of a number, with fuel above it.
abbrev digits_fuel : ℕ → ℕ → List ℕ
digits_fuel zero n = []
digits_fuel (suc fuel) n =
    let rest = digits_fuel fuel (n / 10) in
    if ltb n 10 then (48 + n) ∷ [] else rest ++ (48 + n % 10) ∷ []

-- The digits of a number.
unfoldable pub digits : ℕ → List ℕ
digits n = digits_fuel (suc n) n

-- "X1.5" of 1 and 5.
unfoldable pub tag_codes : ℕ → ℕ → List ℕ
unfolding digits
tag_codes b bit = b'X' ∷ (digits b ++ b'.' ∷ digits bit)

digits_value-snoc :
    (n d v : ℕ) (xs : List ℕ)
    → d < 10
    → digits_value n xs ≡ some v
    → digits_value n (xs ++ (48 + d) ∷ []) ≡ some (v * 10 + d)
unfolding digits_value
digits_value-snoc n d v [] h e = ground (arith, h, e)
digits_value-snoc n d v (c ∷ xs) h e =
    ground (arith, h, e, digits_value-snoc (n * 10 + (c - 48)) d v xs h)

digits_fuel_value : (fuel n : ℕ) → n < fuel → digits_value 0 (digits_fuel fuel n) ≡ some n
unfolding digits_value
digits_fuel_value zero n h = absurd (omega (arith, h))
digits_fuel_value (suc fuel) n h = elim (Bool-cases (ltb n 10)) [
  | inl e ↦ ground (arith, e)
  | inr e ↦ rw e (
      digits_value-snoc 0 (n % 10) (n / 10) (digits_fuel fuel (n / 10)) (omega arith)
        (digits_fuel_value fuel (n / 10) (ground (arith, e, h)))
      ∙ ap some (omega arith))
]

digits_fuel-All : (fuel n : ℕ) → All (λ c. 48 ≤ c) (digits_fuel fuel n)
digits_fuel-All zero n = tt
digits_fuel-All (suc fuel) n = elim (Bool-cases (ltb n 10)) [
  | inl e ↦ rw e (omega arith, tt)
  | inr e ↦ rw e (
      All-snoc (λ c. 48 ≤ c) (digits_fuel fuel (n / 10)) (48 + n % 10)
        (digits_fuel-All fuel (n / 10)) (omega arith))
]

split_dot-digits :
    (xs ys : List ℕ) → All (λ c. 48 ≤ c) xs → split_dot (xs ++ b'.' ∷ ys) ≡ some (xs, ys)
unfolding split_dot
split_dot-digits [] ys h = refl
split_dot-digits (c ∷ xs) ys (h, hs) =
    let e : (c == b'.') ≡ false = ground (arith, h) in rw (e, split_dot-digits xs ys hs) refl

digits_fuel-length : (fuel n : ℕ) → 0 < length (digits_fuel (suc fuel) n)
digits_fuel-length fuel n = elim (Bool-cases (ltb n 10)) [
  | inl e ↦ rw e (omega arith)
  | inr e ↦ rw (e, length-append (digits_fuel fuel (n / 10)) ((48 + n % 10) ∷ [])) (omega arith)
]

-- A text of digits has no sign.
atoi-digits :
    (xs : List ℕ) (n : ℕ)
    → 0 < length xs
    → All (λ c. 48 ≤ c) xs
    → digits_value 0 xs ≡ some n
    → n < 9223372036854775808
    → atoi xs ≡ some (pos n)
unfolding atoi positive
atoi-digits [] n l h e k = absurd (omega (arith, l))
atoi-digits (c ∷ xs) n l (h, hs) e k =
    let minus : (c == b'-') ≡ false = ground (arith, h) in
    let plus : (c == b'+') ≡ false = ground (arith, h) in
    let small : ltb n 9223372036854775808 ≡ true = ground (arith, k) in
    rw (minus, plus, e, small) refl

atoi-digits_of : (n : ℕ) → n < 9223372036854775808 → atoi (digits n) ≡ some (pos n)
unfolding digits
atoi-digits_of n k =
    atoi-digits (digits_fuel (suc n) n) n (digits_fuel-length n n) (digits_fuel-All (suc n) n)
      (digits_fuel_value (suc n) n (omega arith)) k

digits-All : (n : ℕ) → All (λ c. 48 ≤ c) (digits n)
unfolding digits
digits-All n = digits_fuel-All (suc n) n

-- A tag that is written as X, a byte, a dot and a bit, all in decimal digits, is parsed to that byte
-- and that bit, where both fit into an int of 64 bits.
pub parse_input_tag-tag_codes :
    (tag : String) (b bit : ℕ)
    → b < 9223372036854775808
    → bit < 9223372036854775808
    → codes tag ≡ tag_codes b bit
    → parse_input_tag tag ≡ (pos b, pos bit)
unfolding parse_input_tag parse_codes trim_x tag_codes
parse_input_tag-tag_codes tag b bit h k e =
    ap parse_codes e
    ∙ ap pair_of_parts (split_dot-digits (digits b) (digits bit) (digits-All b))
    ∙ ap (λ (o : Option ℤ). pair_of o (atoi (digits bit))) (atoi-digits_of b h)
    ∙ ap (pair_of (some (pos b))) (atoi-digits_of bit k)
