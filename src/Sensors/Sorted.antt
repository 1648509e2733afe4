-- ===== src/Sensors/Sorted.antt =====
-- A consumer that sorts its own list of inputs has the order of the bits.
use mathlib.Core.Path.{Path}
use mathlib.Core.Logic.{∥∥₁_elim}
use mathlib.Core.Bool.{Bool-set}
use mathlib.Core.List.{Memᴰ, Mem, mem-cons_self}
use mathlib.Core.List.Memᴰ
use mathlib.Core.List.Perm
use text.Mathlib.TextEquality.{Char-path}
use Prim.Native.Char.{code}
use Prim.Native.String.{[], ◌∷◌}
use canebot_projector_repo.Base.{
  ℕ, ◌<◌, ◌≡◌, refl, sym, ap, subst, ◌∙◌, inl, inr, String, Bool, false, List, [], ◌∷◌, All, Perm,
  ℤ, pos, Bool-cases, sort-perm, sort-All, IsSorted, sort-IsSorted,
}
use canebot_projector_repo.Sensors.Tags.{
  codes, parse_input_tag, less_pair, comes_first, build_sensor_bit_order,
}
use canebot_projector_repo.Sensors.Numbers.{tag_codes, parse_input_tag-tag_codes}
use canebot_projector_repo.Sensors.Pairs.{less_pair_asym, less_pair_negated, less_pair_same}

All-mem :
    {A : Type 0} (P : A → Bool) (xs : List A) (a : A)
    → All (λ x. P x ≡ false) xs
    → Mem a xs
    → P a ≡ false
All-mem P xs a h m = ∥∥₁_elim m (Bool-set (P a) false) (λ d. go xs h d)
  where
    go : (xs : List _) → All (λ x. P x ≡ false) xs → Memᴰ a xs → P a ≡ false
    go [] h d = absurd (Memᴰ.not-nil d)
    go (x ∷ xs) (h, hs) (Memᴰ.head e) = ap P e ∙ h
    go (x ∷ xs) (h, hs) (Memᴰ.tail d) = go xs hs d

-- Of items that are equal where neither comes before the other, one list only is sorted.
module _ {A : Type 0} (before : A → A → Bool) (P : A → Type 0)
    (irreflexive : (x : A) → before x x ≡ false)
    (equal : (x y : A) → P x → P y → before x y ≡ false → before y x ≡ false → x ≡ y) where
  is_first :
      (x y : A) (xs ys : List A)
      → IsSorted before (y ∷ ys)
      → Perm (x ∷ xs) (y ∷ ys)
      → before x y ≡ false
  is_first x y xs ys s p =
      All-mem (λ z. before z y) (y ∷ ys) x (irreflexive y, s.0) (Perm.subset p x mem-cons_self)

  sorted_unique :
      (xs ys : List A)
      → All P xs
      → All P ys
      → IsSorted before xs
      → IsSorted before ys
      → Perm xs ys
      → xs ≡ ys
  sorted_unique [] ys hx hy sx sy p = Perm.nil-eq p
  sorted_unique (x ∷ xs) [] hx hy sx sy p = Perm.eq-nil p
  sorted_unique (x ∷ xs) (y ∷ ys) hx hy sx sy p =
      let same : x ≡ y =
        equal x y hx.0 hy.0 (is_first x y xs ys sy p) (is_first y x ys xs sx (Perm.symm p)) in
      let rest : Perm xs ys =
        Perm.cons_inv {a = y} (subst (λ (z : A). Perm (z ∷ xs) (y ∷ ys)) same p) in
      ap (λ z. z ∷ xs) same
      ∙ ap (λ (zs : List A). y ∷ zs) (sorted_unique xs ys hx.1 hy.1 sx.1 sy.1 rest)

codes_injective : (s t : String) → codes s ≡ codes t → s ≡ t
codes_injective [] [] e = refl
codes_injective [] (c ∷ t) e = cc
codes_injective (c ∷ s) [] e = cc
codes_injective (c ∷ s) (d ∷ t) e =
    let first : code c ≡ code d = cc in
    let rest : codes s ≡ codes t = cc in
    ap (λ x. x ∷ s) (Char-path c d first) ∙ ap (λ (u : String). d ∷ u) (codes_injective s t rest)

-- A tag of the firmware: X, a byte, a dot and a bit, in decimal digits.
abbrev pub IsTag : String → Type 0
IsTag tag =
    (b : ℕ) × (bit : ℕ) × (b < 9223372036854775808)
    × (bit < 9223372036854775808)
    × (codes tag ≡ tag_codes b bit)

parse_input_tag_injective :
    (s t : String) → IsTag s → IsTag t → parse_input_tag s ≡ parse_input_tag t → s ≡ t
parse_input_tag_injective s t (b, x, hb, hx, e) (c, y, hc, hy, f) same =
    let pair : Path (ℤ × ℤ) (pos b, pos x) (pos c, pos y) =
      sym (parse_input_tag-tag_codes s b x hb hx e)
      ∙ same
      ∙ parse_input_tag-tag_codes t c y hc hy f in
    let bytes : pos b ≡ pos c = ap (λ (p : ℤ × ℤ). p.0) pair in
    let bits : pos x ≡ pos y = ap (λ (p : ℤ × ℤ). p.1) pair in
    let byte : b ≡ c = cc in
    let bit : x ≡ y = cc in
    codes_injective s t (e ∙ ap (λ n. tag_codes n x) byte ∙ ap (tag_codes c) bit ∙ sym f)

comes_first_irreflexive : (s : String) → comes_first s s ≡ false
unfolding comes_first
comes_first_irreflexive s =
    let p = parse_input_tag s in
    elim (Bool-cases (less_pair p p)) [ inl e ↦ less_pair_asym p p e | inr e ↦ e ]

build-IsSorted : (all : List String) → IsSorted comes_first (build_sensor_bit_order all)
unfolding build_sensor_bit_order comes_first
build-IsSorted all =
    sort-IsSorted comes_first (λ s t. less_pair_asym (parse_input_tag s) (parse_input_tag t))
      (λ s t u. less_pair_negated (parse_input_tag s) (parse_input_tag t) (parse_input_tag u)) all

-- The order of the bits has all inputs, none before one of a smaller byte, or of the same byte and a
-- smaller bit; and where all are tags of the firmware, any list of the same inputs that is sorted so
-- is this order.
pub build_sensor_bit_order_lem :
    (all own : List String)
    → All IsTag all
    → All IsTag own
    → Perm own all
    → IsSorted comes_first own
    → IsSorted comes_first (build_sensor_bit_order all)
      × Perm (build_sensor_bit_order all) all
      × (own ≡ build_sensor_bit_order all)
unfolding build_sensor_bit_order comes_first
build_sensor_bit_order_lem all own ha ho p s = (
  build-IsSorted all,
  sort-perm comes_first all,
  sorted_unique comes_first IsTag comes_first_irreflexive
      (λ x y hx hy e f.
        parse_input_tag_injective x y hx hy
          (less_pair_same (parse_input_tag x) (parse_input_tag y) e f))
      own (build_sensor_bit_order all) ho (sort-All comes_first IsTag all ha) s (build-IsSorted all)
      (Perm.trans p (Perm.symm (sort-perm comes_first all))),
)
