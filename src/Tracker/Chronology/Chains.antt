-- ===== src/Tracker/Chronology/Chains.antt =====
-- Lists of stretches of time, each of which begins no earlier than the one before it ends.
use canebot_projector_repo.Base.{ℕ, ◌≤◌, List, [], ◌∷◌, ◌++◌, arith}

module _ {ℓ} {A : Type ℓ} (from to : A → ℕ) where
  -- From `lo` to `hi`.
  abbrev pub IsChain : ℕ → List A → ℕ → Type 0
  IsChain lo [] hi = lo ≤ hi
  IsChain lo (x ∷ xs) hi = (lo ≤ from x) × (from x ≤ to x) × IsChain (to x) xs hi

  pub IsChain-weaken :
      (lo : ℕ) (xs : List A) (hi hi' : ℕ) → IsChain lo xs hi → hi ≤ hi' → IsChain lo xs hi'
  IsChain-weaken lo [] hi hi' c h = omega arith
  IsChain-weaken lo (x ∷ xs) hi hi' c h = (c.0, c.1, IsChain-weaken (to x) xs hi hi' c.2 h)

  pub IsChain-snoc :
      (lo : ℕ) (xs : List A) (x : A) (mid hi : ℕ)
      → IsChain lo xs mid
      → mid ≤ from x
      → from x ≤ to x
      → to x ≤ hi
      → IsChain lo (xs ++ x ∷ []) hi
  IsChain-snoc lo [] x mid hi c a b d = (omega arith, b, d)
  IsChain-snoc lo (y ∷ xs) x mid hi c a b d = (c.0, c.1, IsChain-snoc (to y) xs x mid hi c.2 a b d)

  pub IsChain-le : (lo : ℕ) (xs : List A) (hi : ℕ) → IsChain lo xs hi → lo ≤ hi
  IsChain-le lo [] hi c = c
  IsChain-le lo (x ∷ xs) hi c = omega (arith, IsChain-le (to x) xs hi c.2)

  -- A chain with its end left off.
  pub IsChain-prefix :
      (lo : ℕ) (xs ys : List A) (hi : ℕ) → IsChain lo (xs ++ ys) hi → IsChain lo xs hi
  IsChain-prefix lo [] ys hi c = IsChain-le lo ys hi c
  IsChain-prefix lo (x ∷ xs) ys hi c = (c.0, c.1, IsChain-prefix (to x) xs ys hi c.2)
