-- ===== src/Sensors/Pairs.antt =====
-- The order of pairs of a byte and a bit is total.
use canebot_projector_repo.Base.{◌≡◌, refl, true, false, not, ◌&&◌, arith, ℤ, pos, negsuc, ap, ◌∙◌}
use canebot_projector_repo.Sensors.Tags.{less, is_same, less_pair}

less_asym : (x y : ℤ) → less x y ≡ true → less y x ≡ false
less_asym (pos m) (pos n) h = ground (arith, h)
less_asym (pos m) (negsuc n) h = ground (arith, h)
less_asym (negsuc m) (pos n) h = refl
less_asym (negsuc m) (negsuc n) h = ground (arith, h)

-- Where `y` is not less than `x` nor `z` less than `y`, `z` is not less than `x`.
less_negated : (x y z : ℤ) → less x y ≡ false → less y z ≡ false → less x z ≡ false
less_negated (pos m) (pos n) (pos k) h i = ground (arith, h, i)
less_negated (pos m) (pos n) (negsuc k) h i = refl
less_negated (pos m) (negsuc n) (pos k) h i = ground (arith, i)
less_negated (pos m) (negsuc n) (negsuc k) h i = refl
less_negated (negsuc m) (pos n) (pos k) h i = ground (arith, h)
less_negated (negsuc m) (pos n) (negsuc k) h i = ground (arith, h)
less_negated (negsuc m) (negsuc n) (pos k) h i = ground (arith, i)
less_negated (negsuc m) (negsuc n) (negsuc k) h i = ground (arith, h, i)

is_same_lem : (x y : ℤ) → is_same x y ≡ (not (less x y) && not (less y x))
is_same_lem (pos m) (pos n) = ground arith
is_same_lem (pos m) (negsuc n) = refl
is_same_lem (negsuc m) (pos n) = refl
is_same_lem (negsuc m) (negsuc n) = ground arith

same : (x y : ℤ) → less x y ≡ false → less y x ≡ false → x ≡ y
same (pos m) (pos n) h i = ground (arith, h, i)
same (pos m) (negsuc n) h i = ground (arith, i)
same (negsuc m) (pos n) h i = ground (arith, h)
same (negsuc m) (negsuc n) h i = ground (arith, h, i)

pub less_pair_asym : (p q : ℤ × ℤ) → less_pair p q ≡ true → less_pair q p ≡ false
less_pair_asym (b, s) (c, t) h =
    ground (arith, h, is_same_lem b c, is_same_lem c b, less_asym b c, less_asym c b, less_asym s t)

pub less_pair_negated :
    (p q r : ℤ × ℤ) → less_pair p q ≡ false → less_pair q r ≡ false → less_pair p r ≡ false
less_pair_negated (b, s) (c, t) (d, u) h i = ground (
  arith,
  h,
  i,
  is_same_lem b c,
  is_same_lem c d,
  is_same_lem b d,
  less_negated b c d,
  less_negated d b c,
  less_negated c d b,
  less_negated d c b,
  less_asym b c,
  less_asym c d,
  less_asym b d,
  less_negated s t u,
)

pub less_pair_same : (p q : ℤ × ℤ) → less_pair p q ≡ false → less_pair q p ≡ false → p ≡ q
less_pair_same (b, s) (c, t) h i =
    let l : less b c ≡ false =
      ground (arith, h, i, is_same_lem b c, is_same_lem c b, less_asym b c, less_asym c b) in
    let r : less c b ≡ false =
      ground (arith, h, i, is_same_lem b c, is_same_lem c b, less_asym b c, less_asym c b) in
    let f : less s t ≡ false = ground (arith, h, l, r, is_same_lem b c) in
    let g : less t s ≡ false = ground (arith, i, l, r, is_same_lem c b) in
    ap (λ x. (x, s)) (same b c l r) ∙ ap (λ x. (c, x)) (same s t f g)
