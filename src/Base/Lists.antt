-- ===== src/Base/Lists.antt =====
-- Lists measured by native numbers, a predicate on all their items, and a stable sort.
use Prim.Native.Nat.{ℕ, suc, ◌+◌}
use mathlib.Core.Path.{◌≡◌, ap}
use mathlib.Core.Bool.{Bool}
use mathlib.Core.List.{List, [], ◌∷◌, ◌++◌}
use native.Mathlib.Omega.{arith}
use canebot_projector_repo.Base.Tests.{if◌then◌else◌}

module _ {ℓ} {A : Type ℓ} where
  abbrev pub length : List A → ℕ
  length [] = 0
  length (x ∷ xs) = suc (length xs)

  pub length-append : (xs ys : List A) → length (xs ++ ys) ≡ length xs + length ys
  length-append [] ys = omega arith
  length-append (x ∷ xs) ys = omega (arith, length-append xs ys)

  abbrev pub filter : (A → Bool) → List A → List A
  filter p [] = []
  filter p (x ∷ xs) = if p x then x ∷ filter p xs else filter p xs

-- The predicate holds of every item.
abbrev pub All {ℓ κ} : {A : Type ℓ} → (A → Type κ) → List A → Type κ
All P [] = Unit
All P (x ∷ xs) = P x × All P xs

module _ {ℓ κ} {A : Type ℓ} (P : A → Type κ) where
  pub All-append : (xs ys : List A) → All P xs → All P ys → All P (xs ++ ys)
  All-append [] ys hx hy = hy
  All-append (x ∷ xs) ys hx hy = (hx.0, All-append xs ys hx.1 hy)

  -- An item that is added at the end.
  pub All-snoc : (xs : List A) (x : A) → All P xs → P x → All P (xs ++ x ∷ [])
  All-snoc xs x hx h = All-append xs (x ∷ []) hx (h, tt)

module _ {ℓ} {A : Type ℓ} (before : A → A → Bool) where
  -- Inserts behind the items that `x` does not come before, as a stable sort does.
  abbrev pub insert_sorted : A → List A → List A
  insert_sorted x [] = x ∷ []
  insert_sorted x (y ∷ ys) = if before y x then y ∷ insert_sorted x ys else x ∷ y ∷ ys

  -- `sort.SliceStable` with the order `before`; `sort.Slice` and `sort.Strings` where no two items
  -- are equal.
  unfoldable pub sort : List A → List A
  sort [] = []
  sort (x ∷ xs) = insert_sorted x (sort xs)

module _ {ℓ} {A : Type ℓ} where
  -- The item is one of the list.
  abbrev pub IsIn : A → List A → Type ℓ
  IsIn x xs = (before : List A) × (behind : List A) × (xs ≡ before ++ x ∷ behind)

  pub IsIn-later : (x y : A) (xs : List A) → IsIn x xs → IsIn x (y ∷ xs)
  IsIn-later x y xs (before, behind, e) = (y ∷ before, behind, ap (λ zs. y ∷ zs) e)
