-- ===== src/Sensors/Seen.antt =====
-- The bit string and the values of single inputs say the same.
use canebot_projector_repo.Base.{
  ℕ, String, ◌≡◌, refl, ap, ◌∙◌, ◌⊎◌, inl, inr, Bool, true, false, Option, none, some, List, [],
  ◌∷◌, length, map, lookup, lookup_or, ◌==◌, arith, if◌then◌else◌,
}
use canebot_projector_repo.Sensors.Tags.{codes}
use canebot_projector_repo.Sensors.Bits.{
  trim_space, is_blank, Decoder, encode_bits, encode_sensor_bits, sensor_value,
}

-- The character of a value: absent and low are not told apart.
abbrev pub bit_of : Option ℕ → ℕ
bit_of none = b'0'
bit_of (some v) = if v == 1 then b'1' else b'0'

-- `sensorValue` once the snapshot is read.
abbrev value_in : List (String × Bool) → String → Option ℕ
value_in snapshot tag = elim (lookup tag snapshot) [
  | none ↦ none
  | some v ↦ some (if v then 1 else 0)
]

bit_of-value_in :
    (snapshot : List (String × Bool)) (tag : String)
    → (if lookup_or false tag snapshot then b'1' else b'0') ≡ bit_of (value_in snapshot tag)
bit_of-value_in snapshot tag = go (lookup tag snapshot)
  where
    go :
        (o : Option Bool)
        → (if elim o as (λ _. Bool) [ none ↦ false | some v ↦ v ] then b'1' else b'0')
          ≡ bit_of (elim o as (λ _. Option ℕ) [ none ↦ none | some v ↦ some (if v then 1 else 0) ])
    go none = refl
    go (some true) = refl
    go (some false) = refl

encode_bits-map :
    (order : List String) (snapshot : List (String × Bool))
    → encode_bits order snapshot ≡ map (λ tag. bit_of (value_in snapshot tag)) order
unfolding encode_bits
encode_bits-map [] snapshot = refl
encode_bits-map (tag ∷ order) snapshot =
    ap (λ b. b ∷ encode_bits order snapshot) (bit_of-value_in snapshot tag)
    ∙ ap (λ (bs : List ℕ). bit_of (value_in snapshot tag) ∷ bs) (encode_bits-map order snapshot)

-- Both, of whether the snapshot is blank and what is read from it.
abbrev bits_of : List String → Bool → Option (List (String × Bool)) → List ℕ
bits_of order blank o = if blank then [] else elim o [
  | none ↦ []
  | some snapshot ↦ if length snapshot == 0 then [] else encode_bits order snapshot
]

abbrev value_of : Bool → Option (List (String × Bool)) → String → Option ℕ
value_of blank o tag =
    if blank then none else elim o [ none ↦ none | some snapshot ↦ value_in snapshot tag ]

Agree : (String → Option ℕ) → List String → List ℕ → Type 0
Agree value order bits =
    ((bits ≡ []) × ((tag : String) → value tag ≡ none))
    ⊎ (bits ≡ map (λ tag. bit_of (value tag)) order)

of_Agree :
    (order : List String) (blank : Bool) (o : Option (List (String × Bool)))
    → Agree (value_of blank o) order (bits_of order blank o)
unfolding Agree lookup
of_Agree order true o = inl (refl, λ tag. refl)
of_Agree order false none = inl (refl, λ tag. refl)
of_Agree order false (some []) = inl (refl, λ tag. refl)
of_Agree order false (some (x ∷ xs)) =
    let e : (length (x ∷ xs) == 0) ≡ false = ground arith in
    rw e (inr (encode_bits-map order (x ∷ xs)))

-- The bit string of a snapshot is empty and no input has a value, or it has one character for each
-- input in the order of the bits, which is 1 just where the input's value is.
pub encode_sensor_bits_lem :
    (order : List String) (decode : Decoder) (json : String)
    → ((encode_sensor_bits order decode json ≡ [])
        × ((tag : String) → sensor_value decode json tag ≡ none))
      ⊎ (encode_sensor_bits order decode json
          ≡ map (λ tag. bit_of (sensor_value decode json tag)) order)
unfolding encode_sensor_bits sensor_value Agree
encode_sensor_bits_lem order decode json =
    let s = trim_space (codes json) in of_Agree order (is_blank s) (decode s)
