-- ===== src/Sensors/Bits.antt =====
-- Snapshots as bit strings and as values: `encodeSensorBits`, `sensorValue`, `doorClosed` and
-- `cipBypass` of cmd/projector/sensors.go. What Go's package encoding/json reads is an argument.
use canebot_projector_repo.Base.{
  ℕ, String, Bool, true, false, ◌&&◌, ◌||◌, Option, none, some, List, [], ◌∷◌, ◌++◌, length, lookup,
  lookup_or, leb, ◌==◌, if◌then◌else◌,
}
use canebot_projector_repo.Tracker.Doors.{IoPins}
use canebot_projector_repo.Sensors.Tags.{codes}

-- The white space of Unicode.
unfoldable pub is_space : ℕ → Bool
is_space c =
    (leb 9 c && leb c 13)
    || c == 32
    || c == 133
    || c == 160
    || c == 5760
    || (leb 8192 c && leb c 8202)
    || c == 8232
    || c == 8233
    || c == 8239
    || c == 8287
    || c == 12288

unfoldable pub trim_left : List ℕ → List ℕ
unfolding is_space
trim_left [] = []
trim_left (c ∷ cs) = let rest = trim_left cs in if is_space c then rest else c ∷ cs

abbrev pub backwards : List ℕ → List ℕ
backwards [] = []
backwards (c ∷ cs) = backwards cs ++ c ∷ []

-- `strings.TrimSpace`
unfoldable pub trim_space : List ℕ → List ℕ
unfolding trim_left
trim_space s = backwards (trim_left (backwards (trim_left s)))

unfoldable pub is_text : List ℕ → List ℕ → Bool
is_text [] [] = true
is_text [] (d ∷ ds) = false
is_text (c ∷ cs) [] = false
is_text (c ∷ cs) (d ∷ ds) = c == d && is_text cs ds

-- Whether a trimmed snapshot is none.
unfoldable pub is_blank : List ℕ → Bool
unfolding is_text
is_blank s =
    is_text s [] || is_text s (b'{' ∷ b'}' ∷ []) || is_text s (b'n' ∷ b'u' ∷ b'l' ∷ b'l' ∷ [])

-- What `json.Unmarshal` reads from a text as a map of booleans, or an error.
abbrev pub Decoder : Type 0
Decoder = List ℕ → Option (List (String × Bool))

-- `snapshot[tag]` as a character, for each tag.
unfoldable pub encode_bits : List String → List (String × Bool) → List ℕ
unfolding lookup
encode_bits [] snapshot = []
encode_bits (tag ∷ tags) snapshot =
    (if lookup_or false tag snapshot then b'1' else b'0') ∷ encode_bits tags snapshot

-- `encodeSensorBits`, for an order of the bits.
unfoldable pub encode_sensor_bits : List String → Decoder → String → List ℕ
unfolding trim_space is_blank encode_bits
encode_sensor_bits bit_order decode json =
    let s = trim_space (codes json) in
    if is_blank s then [] else elim (decode s) [
      | none ↦ []
      | some snapshot ↦ if length snapshot == 0 then [] else encode_bits bit_order snapshot
    ]

-- `sensorValue`
unfoldable pub sensor_value : Decoder → String → String → Option ℕ
unfolding trim_space is_blank lookup
sensor_value decode json tag =
    let s = trim_space (codes json) in
    if is_blank s then none else elim (decode s) [
      | none ↦ none
      | some snapshot ↦ elim (lookup tag snapshot) [
        | none ↦ none
        | some v ↦ some (if v then 1 else 0)
      ]
    ]

-- `doorClosed`
unfoldable pub door_closed : IoPins → Decoder → String → Option ℕ
unfolding sensor_value
door_closed io decode json = sensor_value decode json io.main_door_switch

-- `cipBypass`
unfoldable pub cip_bypass : IoPins → Decoder → String → Option ℕ
unfolding sensor_value
cip_bypass io decode json = sensor_value decode json io.cip_bypass_switch
