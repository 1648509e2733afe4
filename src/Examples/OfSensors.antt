-- ===== src/Examples/OfSensors.antt =====
-- Tags, bit strings and values of inputs, and the theorems on them at concrete inputs.
use mathlib.Core.List.Perm
use canebot_projector_repo.Base.{
  ◌≡◌, refl, ◌⊎◌, String, none, List, [], ◌∷◌, Perm, map, lookup, arith, pos, negsuc, IsSorted,
}
use canebot_projector_repo.Sensors.Tags.{
  digits_value, positive, negative, atoi, trim_x, split_dot, parse_codes, parse_input_tag,
  comes_first, build_sensor_bit_order,
}
use canebot_projector_repo.Sensors.Numbers.{digits, tag_codes, parse_input_tag-tag_codes}
use canebot_projector_repo.Sensors.Sorted.{IsTag, build_sensor_bit_order_lem}
use canebot_projector_repo.Sensors.Bits.{
  is_space, trim_left, trim_space, is_text, is_blank, encode_bits, encode_sensor_bits, sensor_value,
}
use canebot_projector_repo.Sensors.Seen.{bit_of, encode_sensor_bits_lem}
use canebot_projector_repo.Examples.Replicas.{a_decoder}

negative_byte : parse_input_tag "X-3.x" ≡ (negsuc 2, pos 1073741824)
unfolding parse_input_tag parse_codes trim_x split_dot atoi positive negative digits_value
negative_byte = refl

parse_input_tag-tag_codes_example : parse_input_tag "X1.15" ≡ (pos 1, pos 15)
unfolding tag_codes digits
parse_input_tag-tag_codes_example =
    parse_input_tag-tag_codes "X1.15" 1 15 (omega arith) (omega arith) refl

abbrev given : List String
given = "X0.10" ∷ "X0.2" ∷ "X1.0" ∷ []

abbrev sorted : List String
sorted = "X0.2" ∷ "X0.10" ∷ "X1.0" ∷ []

X0_2-IsTag : IsTag "X0.2"
unfolding tag_codes digits
X0_2-IsTag = (0, 2, omega arith, omega arith, refl)

X0_10-IsTag : IsTag "X0.10"
unfolding tag_codes digits
X0_10-IsTag = (0, 10, omega arith, omega arith, refl)

X1_0-IsTag : IsTag "X1.0"
unfolding tag_codes digits
X1_0-IsTag = (1, 0, omega arith, omega arith, refl)

sorted-IsSorted : IsSorted comes_first sorted
unfolding comes_first parse_input_tag parse_codes trim_x split_dot atoi positive digits_value
sorted-IsSorted = ((refl, (refl, tt)), ((refl, tt), (tt, tt)))

build_sensor_bit_order_lem_example :
    IsSorted comes_first (build_sensor_bit_order given)
    × Perm (build_sensor_bit_order given) given
    × (sorted ≡ build_sensor_bit_order given)
build_sensor_bit_order_lem_example =
    build_sensor_bit_order_lem given sorted (X0_10-IsTag, (X0_2-IsTag, (X1_0-IsTag, tt)))
      (X0_2-IsTag, (X0_10-IsTag, (X1_0-IsTag, tt))) (Perm.swap "X0.10" "X0.2" ("X1.0" ∷ []))
      sorted-IsSorted

two_bits : encode_sensor_bits ("X0.2" ∷ "X0.10" ∷ []) a_decoder " {1}" ≡ b'0' ∷ b'1' ∷ []
unfolding encode_sensor_bits trim_space trim_left is_space is_blank is_text encode_bits lookup
two_bits = refl

encode_sensor_bits_lem_example :
    ((encode_sensor_bits ("X0.2" ∷ "X0.10" ∷ []) a_decoder " {1}" ≡ [])
      × ((tag : String) → sensor_value a_decoder " {1}" tag ≡ none))
    ⊎ (encode_sensor_bits ("X0.2" ∷ "X0.10" ∷ []) a_decoder " {1}"
        ≡ map (λ tag. bit_of (sensor_value a_decoder " {1}" tag)) ("X0.2" ∷ "X0.10" ∷ []))
encode_sensor_bits_lem_example = encode_sensor_bits_lem ("X0.2" ∷ "X0.10" ∷ []) a_decoder " {1}"
